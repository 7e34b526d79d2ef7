-- ===== src/Upload/Sweep.antt =====
-- cmd/cleanup-uploads/main.go: the sweep of the objects that no file names. The names of the objects and
-- their ages come from the storage.
use golang_backend.Base.{
  ℕ, ◌+◌, String, Bool, true, false, ◌&&◌, Option, none, some, List, [], ◌∷◌, ◌==◌, nat_eq, ltb,
  leb, if◌then◌else◌,
}
use Prim.Native.String.{len}
use golang_backend.Library.{Library}
use golang_backend.Database.Action.{Result, ok, err, Run, World}
use golang_backend.Database.Files.{file_referenced}
use golang_backend.Storage.{Storage}

-- an entry of the directory: `Info`'s modification time, none where the entry is gone meanwhile
pub record Entry : Type 0 where
  pub name : String
  pub is_dir : Bool
  pub info : Result (Option ℕ)

-- the files that were last written before an instant
unfoldable pub older : ℕ → List Entry → Result (List String)
older before [] = ok []
older before (e ∷ es) =
    let rest = older before es in
    if e.is_dir then rest else elim e.info [
      | err cause ↦ err cause
      | ok none ↦ rest
      | ok (some modified) ↦ elim rest [
        | err cause ↦ err cause
        | ok names ↦ ok (if ltb modified before then e.name ∷ names else names)
      ]
    ]

-- the guard on a key; a valid UUID is ASCII, so its bytes are its code points
unfoldable pub is_upload_key : Library → String → Bool
is_upload_key lib key = len key == 36 && lib.valid_uuid key

module _ (lib : Library) (run : Run) {S : Type 0} (st : Storage S) (kind : String) where
  abbrev State : Type 0
  State = World × S

  -- the second look at the tables, and the deletion
  abbrev pub removed : String → S → Result Bool × World → Result (Unit {0}) × State
  removed key s (err e, w) = (err e, (w, s))
  removed key s (ok true, w) = (ok tt, (w, s))
  removed key s (ok false, w) = let (r, s') = st.delete key s in (r, (w, s'))

  unfoldable pub remove_orphan : String → State → Result (Unit {0}) × State
  remove_orphan key (w, s) = removed key s (file_referenced run key kind w)

  abbrev pub handled : Bool → String → State → Result (Unit {0}) × State
  handled true key s = remove_orphan key s
  handled false key s = (ok tt, s)

  abbrev pub as_candidate : Result (Unit {0}) × State → Result Bool × State
  as_candidate (ok u, s) = (ok true, s)
  as_candidate (err e, s) = (err e, s)

  abbrev pub looked_up : Bool → String → S → Result Bool × World → Result Bool × State
  looked_up apply key s (err e, w) = (err e, (w, s))
  looked_up apply key s (ok true, w) = (ok false, (w, s))
  looked_up apply key s (ok false, w) = as_candidate (handled apply key (w, s))

  -- one round, with whether its key is a candidate
  unfoldable pub sweep_key : Bool → String → State → Result Bool × State
  sweep_key apply key (w, s) =
      if is_upload_key lib key
      then looked_up apply key s (file_referenced run key kind w)
      else (ok false, (w, s))

  abbrev pub next :
      (Bool → State → Result (Unit {0}) × State) → Result Bool × State → Result (Unit {0}) × State
  next rest (err e, s) = (err e, s)
  next rest (ok found, s) = rest found s

  -- the loop, `BatchSize` and the candidates so far beside it
  unfoldable pub sweep : Bool → ℕ → ℕ → List String → State → Result (Unit {0}) × State
  sweep apply batch candidates [] s = (ok tt, s)
  sweep apply batch candidates (key ∷ keys) s =
      if leb batch candidates
      then (ok tt, s)
      else next
          (λ found s'. sweep apply batch (if found then candidates + 1 else candidates) keys s')
          (sweep_key apply key s)
