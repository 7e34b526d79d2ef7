-- ===== src/Upload/Kept.antt =====
-- internal/upload/service.go: an upload that fails, and that no upload takes a file's object away.
use golang_backend.Base.{
  suc, String, ◌≡◌, refl, sym, ◌∙◌, ap, subst, false, Option, some, List, ◌∷◌, inl, inr, arith,
  ◌==◌, string_eq, any, In,
}
use golang_backend.Fault.{Error}
use golang_backend.Fault.Laws.{IsFault, db-IsFault}
use golang_backend.Library.{Library}
use golang_backend.Model
use golang_backend.Model.{project_file}
use golang_backend.Database.Tables.{Db, StoredFile}
use golang_backend.Database.Action.{Result, ok, err, Run, World}
use golang_backend.Audit.Writer.{Actor, Policy}
use golang_backend.Audit.Laws.{mutate_failed}
use golang_backend.Storage.{Storage, IsStorage}
use golang_backend.Upload.{Backed}
use golang_backend.Upload.Service.{Input, create_body, tidy, insert_stored, create}
use golang_backend.Upload.Laws.{OthersSame, stored, create-Stored}

unnamed-In :
    (key : String) (fs : List StoredFile) (f : StoredFile)
    → any (λ g. g.object_key == key) fs ≡ false
    → In f fs
    → (f.object_key == key) ≡ false
unnamed-In key List.[] f h i = elim i [ ]
unnamed-In key (g ∷ gs) f h (inl e) = ap (λ k. k == key) (ap StoredFile.object_key e) ∙ ground arith
unnamed-In key (g ∷ gs) f h (inr i) = unnamed-In key gs f (ground arith) i

module _ (lib : Library) (run : Run) (kind : String) {S : Type 0} (st : Storage S)
    (laws : IsStorage st) (p : Policy) where
  tidied :
      (key : String) (w : World) (s0 s : S) (x : Result Model.StoredFile × World) {e : Error}
      {w' : World} {s' : S}
      → tidy lib run kind st key s x ≡ (err e, (w', s'))
      → ((c : Error) → x ≡ (err c, x.1) → (x.1.db ≡ w.db) × IsFault c)
      → OthersSame st key s0 s
      → (w'.db ≡ w.db) × IsFault e × OthersSame st key s0 s'
  tidied key w s0 s (ok a, u) h back others = absurd (cc h)
  tidied key w s0 s (err c, u) h back others =
      let (same, shown) = back c refl in
      (
        ap World.db (ap (λ (x : Result Model.StoredFile × (World × S)). x.1.0) (sym h)) ∙ same,
        ground arith,
        λ j other.
            ap (st.object_at j) (ap (λ (x : Result Model.StoredFile × (World × S)). x.1.1) (sym h))
            ∙ laws.delete-others key s j other
            ∙ others j other,
      )

  insert_stored_failed :
      (actor : Option Actor) (input : Input) (key : String) (w : World) (s0 : S)
      (x : Result (Unit {0}) × S) {e : Error} {w' : World} {s' : S}
      → insert_stored lib run kind st p actor input key w x ≡ (err e, (w', s'))
      → OthersSame st key s0 x.1
      → (w'.db ≡ w.db) × IsFault e × OthersSame st key s0 s'
  insert_stored_failed actor input key w s0 (err c, s) h others =
      (ground arith, ground (arith, db-IsFault c), λ j other. ground (arith, others j other))
  insert_stored_failed actor input key w s0 (ok u, s) h others =
      tidied key w s0 s _ h
        (λ c failed.
          mutate_failed run p actor "CREATE" (create_body lib run kind actor input key) w failed)
        others

  -- An upload that fails, at the storage, in its row, in its required record or at COMMIT, leaves the
  -- tables as they were and every object of another key as it was, and its error is one of the
  -- program's own.
  pub create_failed :
      (actor : Option Actor) (input : Input) (w : World) (s : S) {e : Error} {w' : World} {s' : S}
      → stored lib run kind st laws p actor input (w, s) ≡ (err e, (w', s'))
      → (w'.db ≡ w.db) × IsFault e × OthersSame st (run.fresh w.drawn) s s'
  unfolding create
  create_failed actor input w s h =
      let key = run.fresh w.drawn in
      insert_stored_failed actor input key (record w { drawn = suc w.drawn }) s
        (st.put key input.source s) h (laws.put-others key input.source s)

  kept_object :
      (w : World) (s : S) {s' : S} (f : StoredFile)
      → any (λ f. f.object_key == run.fresh w.drawn) w.db.files ≡ false
      → Backed st kind w.db s
      → OthersSame st (run.fresh w.drawn) s s'
      → In f w.db.files
      → f.storage ≡ kind
      → (contents : String) × (st.object_at f.object_key s' ≡ some contents)
  kept_object w s f new backed others i at =
      let (contents, there) = backed f i at in
      (contents, others f.object_key (unnamed-In _ w.db.files f new i) ∙ there)

  objects_kept :
      (actor : Option Actor) (input : Input) (w : World) (s : S)
      (x : Result Model.StoredFile × (World × S))
      → stored lib run kind st laws p actor input (w, s) ≡ x
      → any (λ f. f.object_key == run.fresh w.drawn) w.db.files ≡ false
      → Backed st kind w.db s
      → Backed st kind x.1.0.db x.1.1
  objects_kept actor input w s (ok out, (w', s')) h new backed f i at =
      let (added, there, others) = create-Stored lib run kind st laws p actor input w s h in
      elim (subst (In f) added.files_after i) [
        | inl e ↦ (
          input.source,
          ap (λ k. st.object_at k s') (ap StoredFile.object_key e ∙ added.at_key) ∙ there,
        )
        | inr old ↦ kept_object w s f new backed others old at
      ]
  objects_kept actor input w s (err e, (w', s')) h new backed f i at =
      let (same, _, others) = create_failed actor input w s h in
      kept_object w s f new backed others (subst (λ d. In f (Db.files d)) same i) at

  -- An upload, whatever becomes of it, keeps every file's object, if no file has the key that it draws.
  pub create-Backed :
      (actor : Option Actor) (input : Input) (w : World) (s : S)
      → any (λ f. f.object_key == run.fresh w.drawn) w.db.files ≡ false
      → Backed st kind w.db s
      → let end = (stored lib run kind st laws p actor input (w, s)).1 in
        Backed st kind end.0.db end.1
  create-Backed actor input w s new backed = objects_kept actor input w s _ refl new backed
