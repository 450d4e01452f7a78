-- ===== src/Threads/Owned.antt =====
-- What a thread of src/main.c owns through its message, and hooks that leave it alone.
use schaufel.Common.{
  ◌≡◌, refl, ◌∙◌, ◌⊎◌, inl, inr, true, false, none, List, [], ◌∷◌, ◌++◌, All, Bool-cases,
}
use schaufel.Message.{Message, Block, free_data, metadata_free}
use schaufel.Hooks.{Hook, Ran, hooklist_run, discard}

abbrev pub owned : Message → List Block
owned m = free_data m.payload ++ metadata_free m.metadata

abbrev pub owned_all : List Message → List Block
owned_all [] = []
owned_all (m ∷ ms) = owned m ++ owned_all ms

-- A hook that frees nothing and keeps the pointers of the message, whatever its verdict.
pub record Leaves (h : Hook) : Type 0 where
  pub frees : (m : Message) → (h m).freed ≡ []
  pub payload : (m : Message) → (h m).msg.payload ≡ m.payload
  pub metadata : (m : Message) → (h m).msg.metadata ≡ m.metadata

-- One that keeps the xmark too.
pub record Keeps (h : Hook) : Type 0 where
  pub frees : (m : Message) → (h m).freed ≡ []
  pub payload : (m : Message) → (h m).msg.payload ≡ m.payload
  pub metadata : (m : Message) → (h m).msg.metadata ≡ m.metadata
  pub xmark : (m : Message) → (h m).msg.xmark ≡ m.xmark

-- What a list of such hooks does to a message: it passes and nothing is freed, or it refuses and
-- what the message owned is freed.
abbrev pub Left : Message → Ran → Type 0
Left m r =
    (r.msg.metadata ≡ m.metadata)
    × (((r.passed ≡ true) × (r.freed ≡ []) × (r.msg.payload ≡ m.payload))
        ⊎ ((r.passed ≡ false) × (r.freed ≡ owned m) × (r.msg.payload ≡ none)))

pub owned-same :
    (m n : Message) → m.payload ≡ n.payload → m.metadata ≡ n.metadata → owned m ≡ owned n
owned-same m n p d = rw (p, d) refl

pub hooklist_run-Left : (hs : List Hook) (m : Message) → All Leaves hs → Left m (hooklist_run hs m)
unfolding hooklist_run discard
hooklist_run-Left [] m k = (refl, inl (refl, refl, refl))
hooklist_run-Left (h ∷ hs) m k =
    let f = k.0.frees m in
    let p = k.0.payload m in
    let d = k.0.metadata m in
    elim (Bool-cases (h m).passed) [
      | inr e ↦ rw e (d, inr (refl, rw f (owned-same (h m).msg m p d), refl))
      | inl e ↦
          rw (e, f)
            (let (z, s) = hooklist_run-Left hs (h m).msg k.1 in
              (
                z ∙ d,
                elim s [
                  | inl (a, b, c) ↦ inl (a, b, c ∙ p)
                  | inr (a, b, c) ↦ inr (a, b ∙ owned-same (h m).msg m p d, c)
                ],
              ))
    ]

hooklist_run-xmark :
    (hs : List Hook) (m : Message) → All Keeps hs → (hooklist_run hs m).msg.xmark ≡ m.xmark
unfolding hooklist_run discard
hooklist_run-xmark [] m k = refl
hooklist_run-xmark (h ∷ hs) m k = elim (Bool-cases (h m).passed) [
  | inr e ↦ rw e (k.0.xmark m)
  | inl e ↦ rw e (hooklist_run-xmark hs (h m).msg k.1 ∙ k.0.xmark m)
]

Keeps-Leaves : (hs : List Hook) → All Keeps hs → All Leaves hs
Keeps-Leaves [] k = tt
Keeps-Leaves (h ∷ hs) k = (
  record { frees = k.0.frees; payload = k.0.payload; metadata = k.0.metadata },
  Keeps-Leaves hs k.1,
)

pub hooklist_run-Kept :
    (hs : List Hook) (m : Message)
    → All Keeps hs
    → ((hooklist_run hs m).msg.xmark ≡ m.xmark) × Left m (hooklist_run hs m)
hooklist_run-Kept hs m k = (hooklist_run-xmark hs m k, hooklist_run-Left hs m (Keeps-Leaves hs k))
