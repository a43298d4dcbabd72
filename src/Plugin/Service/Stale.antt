-- ===== src/Plugin/Service/Stale.antt =====
-- A change of the tags that the service does not see.
use remnaplus_alpine_node.Prelude.{
  true, false, List, [], ◌∷◌, Str, str_eq, ◌==◌, str_beq_iff, Option, some, ◌≡◌, ap, ◌∙◌, arith,
}
use remnaplus_alpine_node.Plugin.{Library, SyncPlugin, TorrentReport, AsnResolver}
use remnaplus_alpine_node.Plugin.Hash.{
  join, stringify_token, hash_plugin_config, is_unchanged_plugin_config,
}
use remnaplus_alpine_node.Plugin.Hash.Joined.{tags_config, tags_config-joined, all_solid}
use remnaplus_alpine_node.Plugin.Service.{Service, Node, accepted, handle_sync}
use remnaplus_alpine_node.Plugin.Service.View.{applied, state_of}
use remnaplus_alpine_node.Plugin.Service.Synced.{unchanged_answer}

module _ (l : Library) (svc : Service) where
  open l use {Kernel}

  abbrev pub tagged : Str → Str → Str → List Str → SyncPlugin
  tagged uuid name duration tags = record {
    uuid = uuid;
    name = name;
    config = some (tags_config duration tags);
  }

  same-Unchanged :
      (resolver : Option AsnResolver) (new old : SyncPlugin) (reports : List TorrentReport)
      → (hash_plugin_config l new.config == []) ≡ false
      → hash_plugin_config l new.config ≡ hash_plugin_config l old.config
      → is_unchanged_plugin_config l new (state_of l resolver (applied old reports)) ≡ true
  unfolding is_unchanged_plugin_config state_of
  same-Unchanged resolver new old reports full same = ground (
    arith,
    full,
    str_beq_iff (hash_plugin_config l new.config) (hash_plugin_config l old.config),
    same,
  )

  -- Take configurations with a torrent blocker and nothing else, which is enabled, has the given duration,
  -- empty ignoreLists and rule tags without white space, and without the bytes 0xC2, 0xE1, 0xE2 and 0xE3,
  -- with which white space outside ASCII begins. Where the plugin that was applied last has such a one, a
  -- request for a plugin of any identifier and name, whose configuration is the same but for listing those
  -- tags joined by commas to one tag, is answered as accepted, and it changes nothing: the tags of the
  -- state stay those of the list. Digests are taken to be non-empty.
  pub joined_tags-Stale :
      (digest : (s : Str) → (l.sha256_hex s == []) ≡ false) (resolver : Option AsnResolver)
      (uuid name uuid' name' duration : Str) (tags : List Str) (reports : List TorrentReport)
      (n : Node Kernel)
      → all_solid tags ≡ true
      → n.state ≡ state_of l resolver (applied (tagged uuid name duration tags) reports)
      → handle_sync l svc (some (some (tagged uuid' name' duration (join tags ∷ [])))) n
        ≡ (accepted true, n)
  unfolding hash_plugin_config tags_config
  joined_tags-Stale digest resolver uuid name uuid' name' duration tags reports n h e =
      let new = tagged uuid' name' duration (join tags ∷ []) in
      unchanged_answer l svc new n (
        ap (is_unchanged_plugin_config l new) e
        ∙ same-Unchanged resolver new (tagged uuid name duration tags) reports
            (digest (stringify_token (tags_config duration (join tags ∷ []))))
            (ap l.sha256_hex (tags_config-joined duration tags h)))
