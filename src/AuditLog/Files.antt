-- ===== src/AuditLog/Files.antt =====
-- What internal/auditlog/service.go sees of the file system and of the clock, and the names of its files.
use remnaplus_alpine_node.Prelude.{
  ℕ, Bool, true, false, not, ◌||◌, List, if◌then◌else◌, Str, str_eq, ◌==◌, ◌++◌, lit, Option, some,
  none,
}
use remnaplus_alpine_node.Prelude.Int.{ℤ}
use remnaplus_alpine_node.Prelude.Text.{has_prefix, has_suffix}

pub data Problem : Type 0 where
  invalid_source invalid_segment file_problem inode_changed bad_retention : Problem

-- A value or an error.
pub data Checked (A : Type 0) : Type 0 where
  good : A → Checked A
  bad : Problem → Checked A

infixl 5 ◌>>=◌
abbrev pub ◌>>=◌ : {A B : Type 0} → Checked A → (A → Checked B) → Checked B
good a >>= f = f a
bad p >>= f = bad p

-- os.Stat: no such file, an error, or the inode and the size.
pub data FileInfo : Type 0 where
  missing broken : FileInfo
  found : Str → ℕ → FileInfo

-- The file system at one moment, with the package filepath, and `time.Parse` by its layout.
pub record Files : Type 0 where
  pub stat : Str → FileInfo
  -- os.Lstat: whether the file is a regular one
  pub is_regular : Str → Option Bool
  -- os.Open and reading: the bytes of the file
  pub text : Str → Option Str
  -- filepath.Glob
  pub glob : Str → Option (List Str)
  pub base : Str → Str
  pub dir : Str → Str
  pub join : Str → Str → Str
  pub parse_time : Str → Str → Option ℤ

pub data Source : Type 0 where
  access_source error_source : Source
  other_source : Str → Source

pub record Service : Type 0 where
  pub access_path : Str
  pub error_path : Str

unfoldable pub path_for : Service → Source → Checked Str
path_for s access_source = good s.access_path
path_for s error_source = good s.error_path
path_for s (other_source name) = bad invalid_source

abbrev regular_path : Str → Option Bool → Checked Str
regular_path path none = bad file_problem
regular_path path (some false) = bad file_problem
regular_path path (some true) = good path

unfoldable pub segment_of : Files → Str → Str → Checked Str
segment_of files id active =
    if id == files.base active
    then good active
    else if not (files.base id == id)
        || not (has_prefix id (files.base active ++ lit ".segment-"))
        || not (has_suffix id (lit ".sealed"))
    then bad invalid_segment
    else let path = files.join (files.dir active) id in regular_path path (files.is_regular path)

unfoldable pub path_for_segment : Files → Service → Source → Str → Checked Str
path_for_segment files s source id = path_for s source >>= segment_of files id
