-- ===== src/Upload/Spared.antt =====
-- cmd/cleanup-uploads/main.go: which objects a sweep leaves alone, whatever fails on its way.
use golang_backend.Base.{
  ℕ, String, ◌≡◌, refl, sym, ◌∙◌, ap, subst, Bool, true, false, not, ◌&&◌, ◌||◌, List, [], ◌∷◌, inl,
  inr, arith, ◌==◌, ==→eq, string_eq, if◌then◌else◌, Bool-cases, leb,
}
use golang_backend.Fault.{Error}
use golang_backend.Library.{Library}
use golang_backend.Database.Tables.{Db}
use golang_backend.Database.Action.{Result, ok, err, Run, World, query, statement}
use golang_backend.Database.Effects.{query-ok}
use golang_backend.Database.Files.{is_referenced, file_referenced}
use golang_backend.Storage.{Storage, IsStorage}
use golang_backend.Upload.Sweep.{
  is_upload_key, removed, remove_orphan, handled, as_candidate, looked_up, sweep_key, next, sweep,
}

-- the key of an object that is no upload, or that a file of the storage has
abbrev pub is_spared : Library → String → Db → String → Bool
is_spared lib kind d j = not (is_upload_key lib j && not (is_referenced j kind d))

module _ (lib : Library) (run : Run) (kind : String) {S : Type 0} (st : Storage S)
    (laws : IsStorage st) where
  -- what the sweep keeps: the tables, the objects that it spares, and all objects if it is a dry run
  abbrev pub Spared : Bool → World × S → World × S → Type 0
  Spared apply a b =
      (b.0.db ≡ a.0.db)
      × ((j : String)
          → (not apply || is_spared lib kind a.0.db j) ≡ true
          → st.object_at j b.1 ≡ st.object_at j a.1)

  Spared-trans :
      (apply : Bool) (a b c : World × S) → Spared apply a b → Spared apply b c → Spared apply a c
  Spared-trans apply (w, s) (w1, s1) (w2, s2) (e, k) (e', k') = (
    e' ∙ e,
    λ j h. k' j (subst (λ d. (not apply || is_spared lib kind d j) ≡ true) (sym e) h) ∙ k j h,
  )

  referenced_same : (key : String) (w : World) → (file_referenced run key kind w).1.db ≡ w.db
  unfolding file_referenced query statement
  referenced_same key w = ground arith

  failed_lookup :
      (key : String) (w : World) {e : Error} {w' : World}
      → file_referenced run key kind w ≡ (err e, w')
      → w'.db ≡ w.db
  failed_lookup key w h = ap (λ (x : Result Bool × World). x.1.db) (sym h) ∙ referenced_same key w

  other_key :
      (d : Db) (key j : String)
      → is_upload_key lib key ≡ true
      → is_referenced key kind d ≡ false
      → is_spared lib kind d j ≡ true
      → (j == key) ≡ false
  other_key d key j upload orphan spared = elim (Bool-cases (j == key)) [
    | inl same ↦
        let e = ==→eq j key same in
        absurd (
          ground
            (arith, ap (is_upload_key lib) e ∙ upload, ap (λ k. is_referenced k kind d) e ∙ orphan))
    | inr other ↦ other
  ]

  deleted-Spared :
      (key : String) (w w' : World) (s : S)
      → w'.db ≡ w.db
      → is_upload_key lib key ≡ true
      → is_referenced key kind w.db ≡ false
      → Spared true (w, s) (w', (st.delete key s).1)
  deleted-Spared key w w' s same upload orphan =
      (same, λ j h. laws.delete-others key s j (other_key w.db key j upload orphan h))

  removed-Spared :
      (key : String) (w : World) (s : S) (x : Result Bool × World)
      → file_referenced run key kind w ≡ x
      → is_upload_key lib key ≡ true
      → Spared true (w, s) (removed lib run st kind key s x).1
  unfolding file_referenced
  removed-Spared key w s (err e, w') h upload = (failed_lookup key w h, λ j k. refl)
  removed-Spared key w s (ok true, w') h upload = ((query-ok run _ w h).1, λ j k. refl)
  removed-Spared key w s (ok false, w') h upload =
      let (orphan, same) = query-ok run _ w h in deleted-Spared key w w' s same upload orphan

  handled-Spared :
      (apply : Bool) (key : String) (w : World) (s : S)
      → is_upload_key lib key ≡ true
      → Spared apply (w, s) (handled lib run st kind apply key (w, s)).1
  unfolding remove_orphan
  handled-Spared true key w s upload =
      removed-Spared key w s (file_referenced run key kind w) refl upload
  handled-Spared false key w s upload = (refl, λ j k. refl)

  as_candidate_state :
      (x : Result (Unit {0}) × (World × S)) → (as_candidate lib run st kind x).1 ≡ x.1
  as_candidate_state (ok u, s) = refl
  as_candidate_state (err e, s) = refl

  looked_up-Spared :
      (apply : Bool) (key : String) (w : World) (s : S) (x : Result Bool × World)
      → file_referenced run key kind w ≡ x
      → is_upload_key lib key ≡ true
      → Spared apply (w, s) (looked_up lib run st kind apply key s x).1
  unfolding file_referenced
  looked_up-Spared apply key w s (err e, w') h upload = (failed_lookup key w h, λ j k. refl)
  looked_up-Spared apply key w s (ok true, w') h upload = ((query-ok run _ w h).1, λ j k. refl)
  looked_up-Spared apply key w s (ok false, w') h upload =
      subst (Spared apply (w, s))
        (sym (as_candidate_state (handled lib run st kind apply key (w', s))))
        (Spared-trans apply (w, s) (w', s) (handled lib run st kind apply key (w', s)).1
          ((query-ok run _ w h).1, λ j k. refl) (handled-Spared apply key w' s upload))

  either-Spared :
      {A : Type 0} (apply : Bool) (s : World × S) (b : Bool) (x y : Result A × (World × S))
      → (b ≡ true → Spared apply s x.1)
      → Spared apply s y.1
      → Spared apply s (if b then x else y).1
  either-Spared apply s true x y h k = h refl
  either-Spared apply s false x y h k = k

  round-Spared :
      (apply : Bool) (key : String) (s : World × S)
      → Spared apply s (sweep_key lib run st kind apply key s).1
  unfolding sweep_key
  round-Spared apply key (w, s) =
      either-Spared apply (w, s) (is_upload_key lib key) _ _
        (λ upload. looked_up-Spared apply key w s _ refl upload) (refl, λ j k. refl)

  next-Spared :
      (apply : Bool) (rest : Bool → World × S → Result (Unit {0}) × (World × S)) (s : World × S)
      (x : Result Bool × (World × S))
      → Spared apply s x.1
      → ((found : Bool) (s' : World × S) → Spared apply s' (rest found s').1)
      → Spared apply s (next lib run st kind rest x).1
  next-Spared apply rest s (err e, s') first k = first
  next-Spared apply rest s (ok found, s') first k =
      Spared-trans apply s s' (rest found s').1 first (k found s')

  -- A sweep of any keys, whatever fails on its way, leaves the tables alone and deletes no object of a
  -- key that a file of the storage has or that is no UUID of 36 characters; and a dry run deletes none.
  pub sweep-Spared :
      (apply : Bool) (batch : ℕ) (keys : List String) (candidates : ℕ) (s : World × S)
      → Spared apply s (sweep lib run st kind apply batch candidates keys s).1
  unfolding sweep
  sweep-Spared apply batch [] candidates s = (refl, λ j k. refl)
  sweep-Spared apply batch (key ∷ keys) candidates s =
      either-Spared apply s (leb batch candidates) _ _ (λ full. (refl, λ j k. refl))
        (next-Spared apply _ s _ (round-Spared apply key s)
          λ found s'. sweep-Spared apply batch keys _ s')
