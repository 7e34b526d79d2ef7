-- ===== src/Database/Effects.antt =====
-- What a statement that succeeded did to the tables, and loops of such statements.
use golang_backend.Base.{String, ◌≡◌, refl, ◌∙◌, Option, some, List, [], ◌∷◌, arith, subst}
use golang_backend.Database.Tables.{Db}
use golang_backend.Database.Action.{
  ok, Run, World, M, wrap, for_each, draw, statement, query, query_row, exec,
}
use golang_backend.Database.Laws.{bind-ok, pure-ok, wrap-ok}

-- an action that, where it succeeds, leaves the tables alone
abbrev pub Reads : {A : Type 0} → M A → Type 0
Reads {A} m = (w : World) (a : A) (w' : World) → m w ≡ (ok a, w') → w'.db ≡ w.db

module _ (run : Run) where
  module _ {A : Type 0} where
    pub query-ok :
        (f : Db → A) (w : World) {a : A} {w' : World}
        → query run f w ≡ (ok a, w')
        → (f w.db ≡ a) × (w'.db ≡ w.db)
    unfolding query statement
    query-ok f w h = ground arith

    pub query_row-ok :
        (f : Db → Option A) (w : World) {a : A} {w' : World}
        → query_row run f w ≡ (ok a, w')
        → (f w.db ≡ some a) × (w'.db ≡ w.db)
    unfolding query_row statement
    query_row-ok f w h = ground arith

  pub draw-same : (w : World) {a : String} {w' : World} → draw run w ≡ (ok a, w') → w'.db ≡ w.db
  unfolding draw
  draw-same w h = ground arith

  pub exec-ok : (f : Db → Db) (w : World) {w' : World} → exec run f w ≡ (ok tt, w') → w'.db ≡ f w.db
  unfolding exec statement
  exec-ok f w h = ground arith

  pub wrapped_query-ok :
      {A : Type 0} (f : Db → A) (w : World) {a : A} {w' : World}
      → wrap (query run f) w ≡ (ok a, w')
      → (f w.db ≡ a) × (w'.db ≡ w.db)
  wrapped_query-ok f w h = query-ok f w (wrap-ok _ w h)

  pub wrapped_row-ok :
      {A : Type 0} (f : Db → Option A) (w : World) {a : A} {w' : World}
      → wrap (query_row run f) w ≡ (ok a, w')
      → (f w.db ≡ some a) × (w'.db ≡ w.db)
  wrapped_row-ok f w h = query_row-ok f w (wrap-ok _ w h)

module _ {ℓ} {A : Type ℓ} (f : A → M (Unit {0})) where
  -- A loop keeps what each of its rounds keeps.
  pub for_each-keeps {κ} :
      (P : Db → Type κ)
      → ((x : A) (w w' : World) → f x w ≡ (ok tt, w') → P w.db → P w'.db)
      → (xs : List A) (w : World) {w' : World} → for_each xs f w ≡ (ok tt, w')
      → P w.db
      → P w'.db
  unfolding for_each
  for_each-keeps P step [] w h p =
      let (same, end) = pure-ok _ w h in subst (λ v. P (World.db v)) end p
  for_each-keeps P step (x ∷ xs) w h p =
      bind-ok _ _ w h λ _ w1 first rest. for_each-keeps P step xs w1 rest (step x w w1 first p)

  pub for_each-Reads : ((x : A) → Reads (f x)) → (xs : List A) → Reads (for_each xs f)
  for_each-Reads reads xs w _ w' h =
      for_each-keeps (λ d. d ≡ w.db) (λ x v v' step same. reads x v tt v' step ∙ same) xs w h refl
