-- ===== src/Hashing/Range.antt =====
-- The range of the hashes and folds of src/utils/fnv.c, and what the hook of src/hooks/xmark.c makes
-- of a message.
use mathlib.Core.Path.{subst}
use Prim.Native.Nat.{min, bit_and, bit_xor, digits, differ, bit_and-bitwise, bit_xor-bitwise}
use native.Mathlib.Nat.{pow-suc, pow-le-pow_right, div-lt_iff_lt-mul}
use schaufel.Common.{
  Bool, ℕ, zero, suc, ◌-◌, ◌≢◌, sym, ap, ◌∙◌, ◌⊎◌, true, false, length, take, ==_iff, ◌*◌, ◌/◌, ◌%◌,
  ◌^◌, ◌≤◌, ◌<◌, ◌≡◌, refl, ◌&&◌, Option, none, some, List, [], ◌∷◌, ltb, ◌==◌, if◌then◌else◌,
  arith, below_all, below_all_lem, Bool-cases, Option-cases, inl, inr,
}
use schaufel.Message.{Message}
use schaufel.JsonExport.{same_string}
use schaufel.Hashing.{
  fnv32a, Hash, fnv32a_str, fnv32a_int, run_hash, hashed_len, fold_to, Fold, fold_noop, folds,
  run_fold, fold_name, fold_rows, find_type, fnv_init, fold_init, Settings, Field, Internal,
  hashed_xmark, xmark_of_datum, chosen_fold, h_xmark_init, MDatum, marked_with, h_xmark,
}

differ_bit : (a b : ℕ) → a < 2 → b < 2 → differ a b < 2
differ_bit zero b h k = k
differ_bit (suc a) zero h k = h
differ_bit (suc zero) (suc zero) h k = omega arith
differ_bit (suc zero) (suc (suc b)) h k = absurd (omega arith)
differ_bit (suc (suc a)) (suc b) h k = absurd (omega arith)

xor_digits_bound :
    (fuel n a b : ℕ) → a < 2 ^ n → b < 2 ^ n → digits (λ b. b) differ fuel a b < 2 ^ n
xor_digits_bound zero n a b h k = k
xor_digits_bound (suc fuel) n zero b h k = k
xor_digits_bound (suc fuel) zero (suc a) b h k = absurd (omega arith)
xor_digits_bound (suc fuel) (suc n) (suc a) b h k =
    let p = pow-suc 2 n in
    let rest = xor_digits_bound fuel n (suc a / 2) (b / 2) (omega arith) (omega arith) in
    let bit = differ_bit (suc a % 2) (b % 2) (omega arith) (omega arith) in omega arith

-- The exclusive or of two numbers of `n` bits has `n` bits.
pub bit_xor-bound : (n a b : ℕ) → a < 2 ^ n → b < 2 ^ n → bit_xor a b < 2 ^ n
bit_xor-bound n a b h k = omega (arith, bit_xor-bitwise a b, xor_digits_bound a n a b h k)

and_digits_bound : (fuel a b : ℕ) → digits (λ b. zero) min fuel a b ≤ b
and_digits_bound zero a b = omega arith
and_digits_bound (suc fuel) zero b = omega arith
and_digits_bound (suc fuel) (suc a) b =
    let rest = and_digits_bound fuel (suc a / 2) (b / 2) in omega arith

pub bit_and-bound : (a b : ℕ) → bit_and a b ≤ b
bit_and-bound a b = omega (arith, bit_and-bitwise a b, and_digits_bound a a b)

-- The two shifts of a fold come to the word.
shifts : (n : ℕ) → n < 32 → (2 ^ n * 2 ^ (32 - n) ≡ 2 ^ 32) × (0 < 2 ^ (32 - n)) × (0 < 2 ^ n)
unfolding below_all
shifts n lt =
    let both =
      below_all_lem 32
        (λ n. 2 ^ n * 2 ^ (32 - n) == 2 ^ 32 && (ltb 0 (2 ^ (32 - n)) && ltb 0 (2 ^ n))) n refl
        lt in
    (ground (arith, both), ground (arith, both), ground (arith, both))

-- A fold to fewer than 31 bits is a number of so many bits.
pub fold_to-bound :
    (n hval : ℕ) → n < 31 → hval < 2 ^ 32 → (x : ℕ) × (fold_to n hval ≡ some x) × (x < 2 ^ n)
unfolding fold_to
fold_to-bound n hval high h =
    let (word, shift, mask) = shifts n (omega arith) in
    let low = bit_and-bound hval (2 ^ n - 1) in
    let defined : ltb n 31 ≡ true = ground arith in
    (
      bit_xor (hval / 2 ^ (32 - n)) (bit_and hval (2 ^ n - 1)),
      rw defined refl,
      bit_xor-bound n (hval / 2 ^ (32 - n)) (bit_and hval (2 ^ n - 1))
          ((div-lt_iff_lt-mul shift).1 (rw word h)) (omega arith),
    )

pub fnv32a-bound : (bs : List ℕ) (hval : ℕ) → hval < 2 ^ 32 → fnv32a bs hval < 2 ^ 32
unfolding fnv32a
fnv32a-bound [] hval h = h
fnv32a-bound (b ∷ bs) hval h = fnv32a-bound bs _ (omega arith)

-- The bytes that a hash reads: those without the NUL, or four.
abbrev pub bytes_read : Hash → MDatum → List ℕ
bytes_read fnv32a_str d = take (d.len - 1) d.bytes
bytes_read fnv32a_int d = take 4 d.bytes

-- They are there: a datum has its length, and one to be hashed as an int four bytes.
abbrev pub IsReadable : Hash → MDatum → Type 0
IsReadable fnv32a_str d = (0 < d.len) × (d.len ≤ length d.bytes)
IsReadable fnv32a_int d = 4 ≤ length d.bytes

str_readable :
    (len : ℕ) (buf : List ℕ)
    → 0 < len
    → len ≤ length buf
    → run_hash fnv32a_str buf (hashed_len len) ≡ some (fnv32a (take (len - 1) buf) 0x811c9dc5)
str_readable zero buf pos le = absurd (omega arith)
str_readable (suc n) buf pos le =
    let b : ltb (length buf) n ≡ false = ground arith in
    let k : suc n - 1 ≡ n = omega arith in rw (b, k) refl

run_hash-readable :
    (hash : Hash) (d : MDatum)
    → IsReadable hash d
    → run_hash hash d.bytes (hashed_len d.len) ≡ some (fnv32a (bytes_read hash d) 0x811c9dc5)
run_hash-readable fnv32a_str d (pos, le) = str_readable d.len d.bytes pos le
run_hash-readable fnv32a_int d le =
    let b : ltb (length d.bytes) 4 ≡ false = ground arith in rw b refl

-- What a fold promises of a number.
abbrev pub Folded : Fold → ℕ → Type 0
Folded fold_noop x = x < 2 ^ 32
Folded (folds n) x = (n < 32) × (x < 2 ^ n)

some_fold : {a b : Fold} → some a ≡ some b → a ≡ b
some_fold h = cc

abbrev FoldsTo : Fold → ℕ → Type 0
FoldsTo fold hval = (x : ℕ) × (run_fold fold hval ≡ some x) × Folded fold x

fold_rows-FoldsTo :
    (k : ℕ) (name : List ℕ) (fold : Fold) (hval : ℕ)
    → fold ≢ folds 31
    → k < 32
    → hval < 2 ^ 32
    → find_type name (fold_rows k) ≡ some fold
    → FoldsTo fold hval
fold_rows-FoldsTo zero name fold hval other lt h e = cc
fold_rows-FoldsTo (suc k) name fold hval other lt h e =
    elim (Bool-cases (same_string name (fold_name (suc k)))) [
      | inl y ↦
          let same = some_fold (rw y at e) in
          let low : suc k < 31 = elim (Bool-cases (suc k == 31)) [
            | inl z ↦ absurd (other (sym same ∙ ap folds ((==_iff (suc k) 31).0 z)))
            | inr z ↦ ground (arith, z)
          ] in
          let (x, run, below) = fold_to-bound (suc k) hval low h in
          subst (λ f. FoldsTo f hval) same (x, run, (lt, below))
      | inr n ↦ fold_rows-FoldsTo k name fold hval other (omega arith) h (rw n at e)
    ]

-- Whichever fold but that to 31 bits the configuration names, folding a number of 32 bits gives one
-- of as many bits as the name says, and of 32 bits without a fold.
pub fold_init_lem :
    (name : List ℕ) (fold : Fold) (hval : ℕ)
    → fold ≢ folds 31
    → hval < 2 ^ 32
    → fold_init name ≡ some fold
    → (x : ℕ) × (run_fold fold hval ≡ some x) × Folded fold x
unfolding fold_init
fold_init_lem name fold hval other h e =
    elim (Bool-cases (same_string name (102 ∷ 111 ∷ 108 ∷ 100 ∷ 95 ∷ 110 ∷ 111 ∷ 111 ∷ 112 ∷ []))) [
      | inl y ↦ let k = rw y at e in subst (λ f. FoldsTo f hval) (some_fold k) (hval, refl, h)
      | inr n ↦ fold_rows-FoldsTo 31 name fold hval other (omega arith) h (rw n at e)
    ]

chosen_fold-FoldsTo :
    (o : Option (List ℕ)) (fold : Fold) (hval : ℕ)
    → fold ≢ folds 31
    → hval < 2 ^ 32
    → chosen_fold o ≡ some fold
    → FoldsTo fold hval
chosen_fold-FoldsTo none fold hval other h e =
    subst (λ f. FoldsTo f hval) (some_fold e) (hval, refl, h)
chosen_fold-FoldsTo (some name) fold hval other h e = fold_init_lem name fold hval other h e

Folded-word : (fold : Fold) (x : ℕ) → Folded fold x → x < 2 ^ 32
Folded-word fold_noop x h = h
Folded-word (folds n) x (low, h) =
    let le : n ≤ 32 = omega arith in
    let two : 0 < 2 = omega arith in let p : 2 ^ n ≤ 2 ^ 32 = pow-le-pow_right two le in omega arith

-- The mark that a message gets: the configured one without a datum that is a string, and else the
-- fold of the hash of the datum.
abbrev pub Marks : Settings → Hash → Fold → Option MDatum → ℕ → Type 0
Marks s hash fold none x = x ≡ s.mark % 2 ^ 32
Marks s hash fold (some d) x =
    ((d.is_string ≡ false) × (x ≡ s.mark % 2 ^ 32))
    ⊎ ((d.is_string ≡ true)
        × (run_fold fold (fnv32a (bytes_read hash d) 0x811c9dc5) ≡ some x)
        × Folded fold x)

if_true : {A : Type 0} (b : Bool) (x y : A) → b ≡ true → (if b then x else y) ≡ x
if_true b x y e = rw e refl

hashed :
    (f : Field) (d : MDatum) (hash : Hash) (fold : Fold) (v x : ℕ)
    → f.hash ≡ some hash
    → f.fold ≡ some fold
    → run_hash hash d.bytes (hashed_len d.len) ≡ some v
    → run_fold fold v ≡ some x
    → hashed_xmark f d ≡ some x
hashed f d hash fold v x h k read run = rw (k, h, read, run) refl

hashed_string :
    (i : Internal) (f : Field) (d : MDatum) (x : ℕ)
    → d.is_string ≡ true
    → hashed_xmark f d ≡ some x
    → xmark_of_datum i f (some d) ≡ some x
hashed_string i f d x y h = if_true d.is_string (hashed_xmark f d) (some i.xmark) y ∙ h

marked_string :
    (s : Settings) (key name : List ℕ) (hash : Hash) (fold : Fold) (find : List ℕ → Option MDatum)
    (m : Message) (d : MDatum) (v x : ℕ)
    → s.hashed ≡ some (key, name)
    → fnv_init name ≡ some hash
    → chosen_fold s.fold ≡ some fold
    → find key ≡ some d
    → d.is_string ≡ true
    → run_hash hash d.bytes (hashed_len d.len) ≡ some v
    → run_fold fold v ≡ some x
    → h_xmark (h_xmark_init s) find m ≡ some (marked_with m x)
unfolding h_xmark h_xmark_init
marked_string s key name hash fold find m d v x settings known folding e y read run =
    let f : Field = record { key = key; hash = fnv_init name; fold = chosen_fold s.fold } in
    let i : Internal = record { xmark = s.mark % 2 ^ 32; field = some f } in
    let one = hashed_string i f d x y (hashed f d hash fold v x known folding read run) in
    rw (settings, e, one) refl

-- With a field whose hash and fold are names of src/utils/fnv.c, or without a fold, but not with the
-- fold to 31 bits, where the datum of that name, if it is a string, has the bytes that the hash
-- reads: the xmark hook calls no missing function. It lets every message pass and frees nothing, and
-- only the xmark of the message changes: it becomes the fold of the hash of the datum, a number of as
-- many bits as the fold says, and the configured mark where the metadata has no such string; in any
-- case a number below 2 ^ 32.
pub h_xmark_lem :
    (s : Settings) (key name : List ℕ) (hash : Hash) (fold : Fold) (find : List ℕ → Option MDatum)
    (m : Message)
    → s.hashed ≡ some (key, name)
    → fnv_init name ≡ some hash
    → chosen_fold s.fold ≡ some fold
    → fold ≢ folds 31
    → ((d : MDatum) → find key ≡ some d → d.is_string ≡ true → IsReadable hash d)
    → (x : ℕ) × (h_xmark (h_xmark_init s) find m ≡ some (marked_with m x))
      × (x < 2 ^ 32)
      × Marks s hash fold (find key) x
unfolding h_xmark h_xmark_init
h_xmark_lem s key name hash fold find m settings known folding other reads =
    elim (Option-cases (find key)) [
      | inl e ↦ (s.mark % 2 ^ 32, rw (settings, known, folding, e) refl, omega arith, rw e refl)
      | inr (d, e) ↦ elim (Bool-cases d.is_string) [
        | inr n ↦ (
          s.mark % 2 ^ 32,
          rw (settings, known, folding, e, n) refl,
          omega arith,
          rw e (inl (n, refl)),
        )
        | inl y ↦
            let read = run_hash-readable hash d (reads d e y) in
            let (x, run, bits) =
              chosen_fold-FoldsTo s.fold fold (fnv32a (bytes_read hash d) 0x811c9dc5) other
                (fnv32a-bound _ _ (omega arith)) folding in
            (
              x,
              marked_string s key name hash fold find m d _ x settings known folding e y read run,
              Folded-word fold x bits,
              rw e (inr (y, run, bits)),
            )
      ]
    ]
