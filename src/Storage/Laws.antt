-- ===== src/Storage/Laws.antt =====
-- internal/storage/storage.go: the local directory keeps what the clients of a storage rely on.
use golang_backend.Base.{
  String, ◌≡◌, refl, sym, ◌∙◌, ap, true, false, none, some, ◌==◌, string_eq, arith, Bool-cases, inl,
  inr,
}
use golang_backend.Fault.{Error}
use golang_backend.Database.Action.{Result, ok, err}
use golang_backend.Storage.{Storage, IsStorage}
use golang_backend.Storage.Local.{
  FileSystem, put, delete, written, settle, ignore_missing, is_bad_key,
}

-- What the directory does, as POSIX documents it: an operation on one entry leaves the others alone.
pub record IsFileSystem {S : Type 0} (fs : FileSystem S) : Type 0 where
  pub open-others :
      (key : String) (s : S) (j : String)
      → (j == key) ≡ false
      → fs.file_at j (fs.open_new key s).1 ≡ fs.file_at j s
  pub copy-writes :
      (key contents : String) (s : S) {s' : S}
      → fs.copy key contents s ≡ (ok tt, s')
      → fs.file_at key s' ≡ some contents
  pub copy-others :
      (key contents : String) (s : S) (j : String)
      → (j == key) ≡ false
      → fs.file_at j (fs.copy key contents s).1 ≡ fs.file_at j s
  pub close-keeps :
      (key : String) (s : S) (j : String) → fs.file_at j (fs.close key s).1 ≡ fs.file_at j s
  pub unlink-removes :
      (key : String) (s : S) {s' : S} → fs.unlink key s ≡ (ok tt, s') → fs.file_at key s' ≡ none
  pub unlink-missing :
      (key : String) (s : S) {e : Error} {s' : S}
      → fs.unlink key s ≡ (err e, s')
      → fs.is_not_exist e ≡ true
      → fs.file_at key s' ≡ none
  pub unlink-others :
      (key : String) (s : S) (j : String)
      → (j == key) ≡ false
      → fs.file_at j (fs.unlink key s).1 ≡ fs.file_at j s

module _ {S : Type 0} (fs : FileSystem S) (laws : IsFileSystem fs) where
  abbrev pub local_storage : Storage S
  local_storage = record { put = put fs; delete = delete fs; object_at = fs.file_at }

  settle-stores :
      (key : String) (copied closed : Result (Unit {0})) (s : S) {s' : S}
      → settle fs key copied closed s ≡ (ok tt, s')
      → (copied ≡ ok tt) × (s ≡ s')
  settle-stores key (err e) closed s h = absurd (cc h)
  settle-stores key (ok u) (err e) s h = absurd (cc h)
  settle-stores key (ok u) (ok v) s h = (refl, ground arith)

  settle-others :
      (key : String) (copied closed : Result (Unit {0})) (s : S) (j : String)
      → (j == key) ≡ false
      → fs.file_at j (settle fs key copied closed s).1 ≡ fs.file_at j s
  settle-others key (err e) closed s j other = laws.unlink-others key s j other
  settle-others key (ok u) (err e) s j other = laws.unlink-others key s j other
  settle-others key (ok u) (ok v) s j other = refl

  written-stores :
      (key contents : String) (opened : Result (Unit {0}) × S) {s' : S}
      → written fs key contents opened ≡ (ok tt, s')
      → fs.file_at key s' ≡ some contents
  written-stores key contents (err e, s) h = absurd (cc h)
  written-stores key contents (ok u, s) {s'} h =
      let x = fs.copy key contents s in
      let (copied, end) = settle-stores key x.0 (fs.close key x.1).0 (fs.close key x.1).1 h in
      ap (fs.file_at key) (sym end)
      ∙ laws.close-keeps key x.1 key
      ∙ laws.copy-writes key contents s (ground arith)

  written-others :
      (key contents : String) (opened : Result (Unit {0}) × S) (j : String)
      → (j == key) ≡ false
      → fs.file_at j (written fs key contents opened).1 ≡ fs.file_at j opened.1
  written-others key contents (err e, s) j other = refl
  written-others key contents (ok u, s) j other =
      let x = fs.copy key contents s in
      settle-others key x.0 (fs.close key x.1).0 (fs.close key x.1).1 j other
      ∙ laws.close-keeps key x.1 j
      ∙ laws.copy-others key contents s j other

  missing_end :
      (f : Error) (t : S) {s' : S}
      → fs.is_not_exist f ≡ true
      → ignore_missing fs (err f, t) ≡ (ok tt, s')
      → t ≡ s'
  missing_end f t gone h = ground arith

  missing_fails :
      (f : Error) (t : S) {s' : S}
      → fs.is_not_exist f ≡ false
      → ignore_missing fs (err f, t) ≡ (ok tt, s')
      → ⊥
  missing_fails f t there h = ground arith

  missing-removes :
      (key : String) (s : S) (x : Result (Unit {0}) × S) {s' : S}
      → fs.unlink key s ≡ x
      → ignore_missing fs x ≡ (ok tt, s')
      → fs.file_at key s' ≡ none
  missing-removes key s (ok u, t) e h = laws.unlink-removes key s (e ∙ h)
  missing-removes key s (err f, t) {s'} e h = elim (Bool-cases (fs.is_not_exist f)) [
    | inl gone ↦ laws.unlink-missing key s (e ∙ ap (λ u. (err f, u)) (missing_end f t gone h)) gone
    | inr there ↦ absurd (missing_fails f t there h)
  ]

  missing-others :
      (x : Result (Unit {0}) × S) (j : String)
      → fs.file_at j (ignore_missing fs x).1 ≡ fs.file_at j x.1
  missing-others (ok u, t) j = refl
  missing-others (err e, t) j = ground arith

  put-stores :
      (key contents : String) (s : S) {s' : S}
      → put fs key contents s ≡ (ok tt, s')
      → fs.file_at key s' ≡ some contents
  unfolding put
  put-stores key contents s h = elim (Bool-cases (is_bad_key fs key)) [
    | inl bad ↦ absurd (ground arith)
    | inr fine ↦ written-stores key contents (fs.open_new key s) (ground arith)
  ]

  put-others :
      (key contents : String) (s : S) (j : String)
      → (j == key) ≡ false
      → fs.file_at j (put fs key contents s).1 ≡ fs.file_at j s
  unfolding put
  put-others key contents s j other = elim (Bool-cases (is_bad_key fs key)) [
    | inl bad ↦ ground arith
    | inr fine ↦ ground (
      arith,
      written-others key contents (fs.open_new key s) j other,
      laws.open-others key s j other,
    )
  ]

  delete-removes :
      (key : String) (s : S) {s' : S} → delete fs key s ≡ (ok tt, s') → fs.file_at key s' ≡ none
  unfolding delete
  delete-removes key s h = elim (Bool-cases (is_bad_key fs key)) [
    | inl bad ↦ absurd (ground arith)
    | inr fine ↦ missing-removes key s (fs.unlink key s) refl (ground arith)
  ]

  delete-others :
      (key : String) (s : S) (j : String)
      → (j == key) ≡ false
      → fs.file_at j (delete fs key s).1 ≡ fs.file_at j s
  unfolding delete
  delete-others key s j other = elim (Bool-cases (is_bad_key fs key)) [
    | inl bad ↦ ground arith
    | inr fine ↦
        ground (arith, missing-others (fs.unlink key s) j, laws.unlink-others key s j other)
  ]

  -- Over a file system whose operations do to the entry they name what POSIX documents, and nothing to
  -- the others, the local directory is a storage in the sense of its clients: a `Put` that succeeds leaves the
  -- contents at its key, a `Delete` that succeeds leaves nothing there, and neither, however it ends,
  -- touches the object of another key.
  pub local_storage-IsStorage : IsStorage local_storage
  local_storage-IsStorage = record {
    put-stores = put-stores;
    put-others = put-others;
    delete-removes = delete-removes;
    delete-others = delete-others;
  }
