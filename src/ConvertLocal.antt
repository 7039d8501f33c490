-- ===== src/ConvertLocal.antt =====
-- cmd/utils/convert_local/main.go: one archive of the disk is converted into a file. The file system
-- is an interface, with the documented behaviour that the command relies on as laws.
use google_cloud_storage.Base.{
  Bytes, List, ◌++◌, Option, none, some, ◌≡◌, ◌≢◌, ◌<◌, ◌∙◌, refl, length, Bool, true,
}
use google_cloud_storage.Base.Result.{Error, Result, ok, err}
use google_cloud_storage.Base.Run.{Run, returns, panic}
use google_cloud_storage.Converter.Interface.{Gobgp, Gzip, IsReliable}
use google_cloud_storage.Converter.Update.{Update}
use google_cloud_storage.Converter.Stream.{Stream}
use google_cloud_storage.Converter.Loop.{convert}
use google_cloud_storage.Converter.Loop.Frames.{Frame, raw, lines, AllRender}
use google_cloud_storage.Converter.Loop.Frames.Whole.{convert_renders}

pub record Disk : Type 1 where
  pub State : Type 0
  -- `os.Open`, and what reading the file then yields.
  pub open_file : Bytes → State → Result (Unit {0})
  pub content : Bytes → State → Bytes
  -- `os.Create`, which cuts a file that exists to nothing.
  pub create : Bytes → State → State × Result (Unit {0})
  -- What is written to a file that was just created, and whether the disk takes all of it.
  pub write_file : Bytes → Bytes → State → State
  pub takes : Bytes → Bytes → State → Bool
  -- The identity of the regular file that a path leads to. Several paths can lead to one file, by
  -- `.` and `..` in them and by links.
  pub file : Bytes → State → Option Bytes

pub record IsLawful (D : Disk) : Type 0 where
  pub content-create_ne :
      (p q i j : Bytes) (s : D.State)
      → D.file p (D.create p s).0 ≡ some i
      → D.file q (D.create p s).0 ≡ some j
      → i ≢ j
      → D.content q (D.create p s).0 ≡ D.content q s
  pub content-write_file :
      (p c i : Bytes) (s : D.State)
      → D.file p s ≡ some i
      → D.takes p c s ≡ true
      → D.content p (D.write_file p c s) ≡ c
  pub content-write_file_ne :
      (p c q i j : Bytes) (s : D.State)
      → D.file p s ≡ some i
      → D.file q s ≡ some j
      → i ≢ j
      → D.content q (D.write_file p c s) ≡ D.content q s

module _ (D : Disk) (B : Gobgp) (Z : Gzip) (json : Update B.Time → Result Bytes)
    (bzip2 : Bytes → Stream) (collector archive output : Bytes) where
  -- The disk that the command leaves, or nothing when the conversion's fuel ran out. A panic leaves
  -- the file without the end of its compressed stream.
  abbrev pub Outcome : Type 0
  Outcome = Option (Run D.State)

  unfoldable pub written_stage : D.State → Option (Run Bytes) → Outcome
  written_stage s none = none
  written_stage s (some panic) = some panic
  written_stage s (some (returns out)) = some (returns (D.write_file output out s))

  -- `Convert` reads the archive as it is once the output was created.
  unfoldable pub created_stage : D.State × Result (Unit {0}) → Outcome
  unfolding written_stage
  created_stage (s, err e) = some (returns s)
  created_stage (s, ok u) =
      written_stage s (convert B Z json collector (bzip2 (D.content archive s)))

  unfoldable pub opened_stage : D.State → Result (Unit {0}) → Outcome
  unfolding created_stage
  opened_stage s (err e) = some (returns s)
  opened_stage s (ok u) = created_stage (D.create output s)

  -- `main`
  unfoldable pub convert_local : D.State → Outcome
  unfolding opened_stage
  convert_local s = opened_stage s (D.open_file archive s)

  created_writes :
      (x : D.State × Result (Unit {0})) (out : Bytes)
      → x.1 ≡ ok tt
      → convert B Z json collector (bzip2 (D.content archive x.0)) ≡ some (returns out)
      → created_stage x ≡ some (returns (D.write_file output out x.0))
  unfolding created_stage written_stage
  created_writes (s, err e) out h c = absurd (cc)
  created_writes (s, ok u) out h c = rw c refl

  module _ (L : IsLawful D) (R : IsReliable Z) where
    -- When the archive can be opened and the output can be created, their paths then lead to two
    -- different regular files, the archive decompresses to whole MRT messages, each of which is
    -- skipped, fails to parse, or parses to an update that is encoded (so none panics), and then
    -- to less than a header, and the disk takes all that is written: the command comes to its end,
    -- with the compressed lines of those messages in the output and the archive as it was.
    pub convert_local_renders :
        (s : D.State) (ps : List (Frame × Bytes)) (t : Bytes) (e : Error) (i j : Bytes)
        → D.open_file archive s ≡ ok tt
        → (D.create output s).1 ≡ ok tt
        → D.file output (D.create output s).0 ≡ some i
        → D.file archive (D.create output s).0 ≡ some j
        → i ≢ j
        → bzip2 (D.content archive s) ≡ record { rest = raw ps ++ t; ending = e }
        → length t < B.common_header_len
        → AllRender B json collector ps
        → D.takes output (R.compress (lines ps)) (D.create output s).0 ≡ true
        → (s' : D.State) × (convert_local s ≡ some (returns s'))
          × (D.content output s' ≡ R.compress (lines ps))
          × (D.content archive s' ≡ D.content archive s)
    unfolding convert_local opened_stage
    convert_local_renders s ps t e i j opened created written held differ unzips short all taken =
        let same_archive = L.content-create_ne output archive i j s written held differ in
        let c = convert_renders B Z R json collector ps t e all short in
        (
          D.write_file output (R.compress (lines ps)) (D.create output s).0,
          rw opened (
              created_writes (D.create output s) (R.compress (lines ps)) created
                (rw (same_archive, unzips) c)),
          L.content-write_file output _ i _ written taken,
          L.content-write_file_ne output _ archive i j _ written held differ ∙ same_archive,
        )
