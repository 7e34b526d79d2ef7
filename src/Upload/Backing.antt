-- ===== src/Upload/Backing.antt =====
-- internal/upload/service.go and cmd/cleanup-uploads/main.go together: no file loses its object.
use golang_backend.Base.{
  ℕ, String, ◌≡◌, ◌∙◌, ap, sym, subst, Bool, true, false, ◌&&◌, Option, some, List, ◌∷◌, inl, inr,
  arith, ◌==◌, ==_refl, string_eq, any, In,
}
use golang_backend.Library.{Library}
use golang_backend.Database.Tables.{Db, StoredFile}
use golang_backend.Database.Action.{Run, World}
use golang_backend.Database.Files.{is_referenced}
use golang_backend.Audit.Writer.{Actor, Policy}
use golang_backend.Storage.{Storage, IsStorage}
use golang_backend.Upload.{Backed}
use golang_backend.Upload.Service.{Input, create}
use golang_backend.Upload.Sweep.{sweep}
use golang_backend.Upload.Kept.{create-Backed}
use golang_backend.Upload.Spared.{sweep-Spared}

referenced-In :
    (kind : String) (fs : List StoredFile) (f : StoredFile)
    → In f fs
    → f.storage ≡ kind
    → any (λ g. g.object_key == f.object_key && g.storage == kind) fs ≡ true
referenced-In kind List.[] f i at = elim i [ ]
referenced-In kind (g ∷ gs) f (inl e) at = ground (
  arith,
  ap StoredFile.object_key e,
  sym (ap StoredFile.storage e) ∙ at,
  ==_refl f.object_key,
  ==_refl kind,
)
referenced-In kind (g ∷ gs) f (inr i) at = ground (arith, referenced-In kind gs f i at)

module _ {S : Type 0} (st : Storage S) (kind : String) where
  -- Runs of the two, one after the other, each with its own faults: an upload whose key no file has, and
  -- a sweep, dry or not, of any keys.
  pub data Steps : World × S → World × S → Type 0 where
    done : {s : World × S} → Steps s s
    upload :
        (lib : Library) (run : Run) (p : Policy) (actor : Option Actor) (input : Input) {w : World}
        {s : S} {end : World × S}
        → any (λ f. f.object_key == run.fresh w.drawn) w.db.files ≡ false
        → Steps (create lib run kind (some st) p actor input (w, s)).1 end
        → Steps (w, s) end
    swept :
        (lib : Library) (run : Run) (apply : Bool) (batch : ℕ) (keys : List String) {s : World × S}
        {end : World × S}
        → Steps (sweep lib run st kind apply batch 0 keys s).1 end
        → Steps s end

  module _ (laws : IsStorage st) where
    sweep-Backed :
        (lib : Library) (run : Run) (apply : Bool) (batch : ℕ) (keys : List String) (s : World × S)
        → Backed st kind s.0.db s.1
        → let end = (sweep lib run st kind apply batch 0 keys s).1 in Backed st kind end.0.db end.1
    unfolding is_referenced
    sweep-Backed lib run apply batch keys s backed f i at =
        let (same, spared) = sweep-Spared lib run kind st laws apply batch keys 0 s in
        let i0 : In f s.0.db.files = subst (λ d. In f (Db.files d)) same i in
        let (contents, there) = backed f i0 at in
        (
          contents,
          spared f.object_key (ground (arith, referenced-In kind s.0.db.files f i0 at)) ∙ there,
        )

    -- In a storage that keeps what it promises, if every file has its object then so it is after any
    -- uploads that draw keys which no file has, and any sweeps, in any order and whatever fails in them.
    pub steps-Backed :
        (a b : World × S) → Steps a b → Backed st kind a.0.db a.1 → Backed st kind b.0.db b.1
    steps-Backed a b done backed = backed
    steps-Backed a b (upload lib run p actor input {w} {s} fresh steps) backed =
        steps-Backed _ b steps (create-Backed lib run kind st laws p actor input w s fresh backed)
    steps-Backed a b (swept lib run apply batch keys steps) backed =
        steps-Backed _ b steps (sweep-Backed lib run apply batch keys a backed)
