-- ===== src/Plugin/Service/Refines.antt =====
-- The plugin service answers requests to sync as its view says.
use remnaplus_alpine_node.Prelude.{
  inr, inl, Bool-cases, ap, Bool, true, false, List, [], if◌then◌else◌, Str, str_eq, ◌==◌, Option,
  none, some, ◌≡◌, refl, arith,
}
use remnaplus_alpine_node.Plugin.{Library, SyncPlugin, TorrentReport, AsnResolver}
use remnaplus_alpine_node.Plugin.Hash.{hash_plugin_config, is_unchanged_plugin_config}
use remnaplus_alpine_node.Plugin.Service.{
  Service, Node, Answer, accepted, handle_sync, handle_plugin_clear,
}
use remnaplus_alpine_node.Plugin.Service.View.{
  View, idle, applied, state_of, is_valid, Valid, sync_view,
}
use remnaplus_alpine_node.Prelude.{◌∙◌}
use remnaplus_alpine_node.Plugin.Service.Frames.{stopped-state}
use remnaplus_alpine_node.Plugin.Service.Synced.{
  synced_state, sync_plugin, unchanged_answer, synced_answer_idle, synced_answer_applied,
  unchanged_idle, unchanged_applied, synced_idle, synced_applied,
}

module _ (l : Library) (svc : Service) where
  open l use {Kernel}

  if_Valid :
      (b : Bool) (x y : Answer × View)
      → (b ≡ true → Valid l x.1)
      → (b ≡ false → Valid l y.1)
      → Valid l (if b then x else y).1
  if_Valid true x y on_true on_false = on_true refl
  if_Valid false x y on_true on_false = on_false refl

  sync_view-Valid :
      (v : View) (request : Option (Option SyncPlugin))
      → Valid l v
      → Valid l (sync_view l request v).1
  unfolding sync_view
  sync_view-Valid v none valid = valid
  sync_view-Valid idle (some none) valid = tt
  sync_view-Valid (applied old reports) (some none) valid = tt
  sync_view-Valid idle (some (some new)) valid =
      if_Valid (is_valid l new) (accepted true, applied new []) (accepted false, idle) (λ h. h)
        (λ h. tt)
  sync_view-Valid (applied old reports) (some (some new)) valid =
      if_Valid (hash_plugin_config l new.config == hash_plugin_config l old.config)
        (accepted true, applied old reports)
        (if is_valid l new then (accepted true, applied new reports) else (accepted false, idle))
        (λ h. valid)
        (λ h.
          if_Valid (is_valid l new) (accepted true, applied new reports) (accepted false, idle)
            (λ h. h) (λ h. tt))

  -- What the answer and the state of a request have to be.
  abbrev pub Agrees : Option AsnResolver → Answer × Node Kernel → Answer × View → Type 0
  Agrees resolver outcome seen =
      (outcome.0 ≡ seen.0) × (outcome.1.state ≡ state_of l resolver seen.1)

  clear-Agrees :
      (resolver : Option AsnResolver) (v : View) (n : Node Kernel)
      → n.state ≡ state_of l resolver v
      → Agrees resolver (handle_sync l svc (some none) n) (sync_view l (some none) v)
  unfolding handle_sync handle_plugin_clear sync_view state_of
  clear-Agrees resolver idle n e = ground (arith, e)
  clear-Agrees resolver (applied old reports) n e = ground (arith, e, stopped-state l svc n)

  idle-Agrees :
      (resolver : Option AsnResolver) (new : SyncPlugin) (n : Node Kernel)
      → n.state ≡ state_of l resolver idle
      → Agrees resolver (handle_sync l svc (some (some new)) n) (sync_view l (some (some new)) idle)
  idle-Agrees resolver new n e =
      let outcome =
        sync_plugin l svc new n
          (ap (is_unchanged_plugin_config l new) e ∙ unchanged_idle l svc resolver new) in
      (
        outcome.0 ∙ synced_answer_idle l svc new,
        outcome.1 ∙ ap (synced_state l svc new) e ∙ synced_idle l svc resolver new,
      )

  same-Agrees :
      (digest : (s : Str) → (l.sha256_hex s == []) ≡ false) (resolver : Option AsnResolver)
      (new old : SyncPlugin) (reports : List TorrentReport) (n : Node Kernel)
      → is_valid l old ≡ true
      → n.state ≡ state_of l resolver (applied old reports)
      → (hash_plugin_config l new.config == hash_plugin_config l old.config) ≡ true
      → Agrees resolver
          (handle_sync l svc (some (some new)) n)
          (sync_view l (some (some new)) (applied old reports))
  unfolding sync_view
  same-Agrees digest resolver new old reports n valid e h = ground (
    arith,
    e,
    unchanged_answer l svc new n (
        ap (is_unchanged_plugin_config l new) e
        ∙ unchanged_applied l svc digest resolver new old reports valid
        ∙ h),
  )

  changed-Agrees :
      (digest : (s : Str) → (l.sha256_hex s == []) ≡ false) (resolver : Option AsnResolver)
      (new old : SyncPlugin) (reports : List TorrentReport) (n : Node Kernel)
      → is_valid l old ≡ true
      → n.state ≡ state_of l resolver (applied old reports)
      → (hash_plugin_config l new.config == hash_plugin_config l old.config) ≡ false
      → Agrees resolver
          (handle_sync l svc (some (some new)) n)
          (sync_view l (some (some new)) (applied old reports))
  changed-Agrees digest resolver new old reports n valid e h =
      let outcome = sync_plugin l svc new n (
        ap (is_unchanged_plugin_config l new) e
        ∙ unchanged_applied l svc digest resolver new old reports valid
        ∙ h) in
      (
        outcome.0 ∙ synced_answer_applied l svc new old reports h,
        outcome.1 ∙ ap (synced_state l svc new) e ∙ synced_applied l svc resolver new old reports h,
      )

  applied-Agrees :
      (digest : (s : Str) → (l.sha256_hex s == []) ≡ false) (resolver : Option AsnResolver)
      (new old : SyncPlugin) (reports : List TorrentReport) (n : Node Kernel)
      → is_valid l old ≡ true
      → n.state ≡ state_of l resolver (applied old reports)
      → Agrees resolver
          (handle_sync l svc (some (some new)) n)
          (sync_view l (some (some new)) (applied old reports))
  applied-Agrees digest resolver new old reports n valid e =
      elim (Bool-cases (hash_plugin_config l new.config == hash_plugin_config l old.config)) [
        | inl h ↦ same-Agrees digest resolver new old reports n valid e h
        | inr h ↦ changed-Agrees digest resolver new old reports n valid e h
      ]

  -- Where the view is valid, a request is answered as the view says, and the node then holds the state
  -- of the view's next value, which is valid again. Digests are taken to be non-empty.
  pub handle_sync-refines :
      (digest : (s : Str) → (l.sha256_hex s == []) ≡ false) (resolver : Option AsnResolver)
      (v : View) (request : Option (Option SyncPlugin)) (n : Node Kernel)
      → Valid l v
      → n.state ≡ state_of l resolver v
      → ((handle_sync l svc request n).0 ≡ (sync_view l request v).0)
        × ((handle_sync l svc request n).1.state ≡ state_of l resolver (sync_view l request v).1)
        × Valid l (sync_view l request v).1
  unfolding handle_sync sync_view
  handle_sync-refines digest resolver v none n valid e = (refl, e, valid)
  handle_sync-refines digest resolver v (some none) n valid e =
      let agrees = clear-Agrees resolver v n e in
      (agrees.0, agrees.1, sync_view-Valid v (some none) valid)
  handle_sync-refines digest resolver idle (some (some new)) n valid e =
      let agrees = idle-Agrees resolver new n e in
      (agrees.0, agrees.1, sync_view-Valid idle (some (some new)) valid)
  handle_sync-refines digest resolver (applied old reports) (some (some new)) n valid e =
      let agrees = applied-Agrees digest resolver new old reports n valid e in
      (agrees.0, agrees.1, sync_view-Valid (applied old reports) (some (some new)) valid)
