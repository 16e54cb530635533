-- ===== src/Vmtest/Build.antt =====
-- Building the live test and finding the repository: xtask/src/vmtest/mod.rs. What Cargo, Git and the
-- file system answer are arguments.
use sakai.Release.Package.{ensure}
use sakai.Http.{io_fault, message, context, Attempted}
use sakai.Str.{Str, codes, str_eq, trim}
use sakai.Paths.{root_dir, normal, PathBuf}
use sakai.Os.{IoError}
use sakai.Base.{
  if◌then◌else◌, Result, ok, ◌>>=◌, ◌>>◌, map_ok, map_err, ok_or, collect, Bool, ◌&&◌, Option, none,
  some, List, [], ◌∷◌, ◌++◌, map,
}

abbrev pub prefixes : PathBuf → List PathBuf
prefixes [] = [] ∷ []
prefixes (c ∷ path) = map (λ p. c ∷ p) (prefixes path) ++ ([] ∷ [])

-- `Path::ancestors`, the path itself first; an absolute path ends with the root.
unfoldable pub ancestors : PathBuf → List PathBuf
ancestors (root_dir ∷ path) = map (λ p. root_dir ∷ p) (prefixes path)
ancestors path = prefixes path

unfoldable pub find_path : (PathBuf → Bool) → List PathBuf → Option PathBuf
find_path p [] = none
find_path p (x ∷ xs) = let rest = find_path p xs in if p x then some x else rest

module _ (is_file : PathBuf → Bool) where
  abbrev pub is_repository : PathBuf → Bool
  is_repository path =
      is_file (path ++ (normal (codes "xtask") ∷ normal (codes "Cargo.toml") ∷ []))
      && is_file (path ++ (normal (codes "sakai") ∷ normal (codes "Cargo.toml") ∷ []))

  -- `Vmtest::repository`
  unfoldable pub repository :
      Result IoError PathBuf → (PathBuf → Result IoError PathBuf) → Attempted PathBuf
  unfolding find_path ancestors
  repository current_dir canonicalize = do
    directory ← map_err io_fault current_dir
    path ←
        ok_or (find_path is_repository (ancestors directory))
          (message (codes "run vmtest from inside the Sakai repository"))
    map_err io_fault (canonicalize path)

-- `cargo_metadata::Message`, as far as it is looked at: the target of an artifact, whether it is a
-- test, and its executable.
pub data Message : Type 0 where
  compiler_artifact : Str → Bool → Option Str → Message
  compiler_message : Message
  other_message : Message

-- `Vmtest::executable`, without the print of a message.
unfoldable pub executable : Message → Option Str
unfolding str_eq
executable (compiler_artifact target is_test path) =
    if str_eq target (codes "linux_live") && is_test then path else none
executable compiler_message = none
executable other_message = none

-- `into_iter().flatten().last()`
unfoldable pub last_some : List (Option Str) → Option Str
last_some [] = none
last_some (none ∷ xs) = last_some xs
last_some (some x ∷ xs) = some (get_or x (last_some xs))
  where
    get_or : Str → Option Str → Str
    get_or x none = x
    get_or x (some y) = y

-- What the commands and the file system answer.
pub record Tools : Type 0 where
  -- whether Cargo starts, what it prints, and whether it exits with success
  pub spawn : Result IoError (Unit {0})
  pub messages : List (Result IoError Message)
  pub wait : Result IoError Bool
  pub create_parent : Result IoError (Unit {0})
  -- `fs::copy` to the place of the guest's binary
  pub copy : Str → Result IoError (Unit {0})
  -- whether `git rev-parse HEAD` succeeds, and its output
  pub rev_parse : Result IoError (Bool × Option Str)
  pub write_metadata : Str → Result IoError (Unit {0})

module _ (tools : Tools) where
  -- `Vmtest::record_binary`, with the text that it writes.
  unfoldable pub record_binary : Attempted Str
  unfolding trim
  record_binary = do
    (success, output) ← map_err io_fault tools.rev_parse
    ensure success (codes "failed to resolve Git commit")
    commit ← ok_or output (message (codes "invalid utf-8 sequence"))
    map_err io_fault (tools.write_metadata (codes "commit=" ++ (trim commit ++ codes "\n")))
    ok (codes "commit=" ++ (trim commit ++ codes "\n"))

  -- `Vmtest::build_binary`, with the executable that it copies.
  unfoldable pub build_binary : Attempted Str
  unfolding executable last_some record_binary
  build_binary = do
    map_err (λ e. context (codes "failed to start Cargo") (io_fault e)) tools.spawn
    success ← map_err io_fault tools.wait
    ensure success (codes "Cargo failed to build linux_live")
    artifacts ← map_err io_fault (collect (map (map_ok executable) tools.messages))
    path ←
        ok_or (last_some artifacts)
          (message (codes "Cargo did not report the linux_live executable"))
    map_err io_fault tools.create_parent
    map_err io_fault (tools.copy path)
    metadata ← record_binary
    ok path
