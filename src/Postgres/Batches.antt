-- ===== src/Postgres/Batches.antt =====
-- The COPYs of src/postgres.c are begun and ended in turn, and batches are bounded.
use Prim.Native.Nat.{bit_and}
use mathlib.Core.Path.{subst}
use schaufel.Common.{
  ℕ, ◌+◌, ◌<◌, ◌≡◌, refl, sym, ◌∙◌, ap, Bool, true, false, not, ◌&&◌, Option, none, some, List, [],
  ◌∷◌, ◌++◌, ltb, ◌==◌, if◌then◌else◌, arith, Bool-cases, inl, inr, below_all, below_all_lem,
  ==_iff,
}
use schaufel.Postgres.{
  Sent, copy_in, copy_data, copy_end, Meta, commit, commit_tick, begin_copy, put_rows, put_message,
  sent, begin_events, send_both, send_master,
}

-- The protocol of a connection: is a COPY open after these events? `none` is an event out of turn.
abbrev pub protocol_from : Option Bool → List Sent → Option Bool
protocol_from s [] = s
protocol_from none (e ∷ es) = none
protocol_from (some false) (copy_in ∷ es) = protocol_from (some true) es
protocol_from (some true) (copy_data d ∷ es) = protocol_from (some true) es
protocol_from (some true) (copy_end ∷ es) = protocol_from (some false) es
protocol_from (some true) (copy_in ∷ es) = none
protocol_from (some false) (copy_data d ∷ es) = none
protocol_from (some false) (copy_end ∷ es) = none

abbrev pub protocol : List Sent → Option Bool
protocol es = protocol_from (some false) es

protocol_none : (es : List Sent) → protocol_from none es ≡ none
protocol_none [] = refl
protocol_none (e ∷ es) = refl

protocol-append :
    (s : Option Bool) (es fs : List Sent)
    → protocol_from s (es ++ fs) ≡ protocol_from (protocol_from s es) fs
protocol-append s [] fs = refl
protocol-append none (e ∷ es) fs = sym (protocol_none fs)
protocol-append (some false) (copy_in ∷ es) fs = protocol-append (some true) es fs
protocol-append (some true) (copy_data d ∷ es) fs = protocol-append (some true) es fs
protocol-append (some true) (copy_end ∷ es) fs = protocol-append (some false) es fs
protocol-append (some true) (copy_in ∷ es) fs = sym (protocol_none fs)
protocol-append (some false) (copy_data d ∷ es) fs = sym (protocol_none fs)
protocol-append (some false) (copy_end ∷ es) fs = sym (protocol_none fs)

-- Both connections stand at the same point of the protocol.
abbrev pub InCopy : Bool → Meta → Type 0
InCopy b m = (protocol m.master ≡ some b) × (m.replicated ≡ true → protocol m.replica ≡ some b)

-- What holds between the calls: both connections are in the COPY exactly if `copy` says so.
pub record IsValid (m : Meta) : Type 0 where
  pub linked : InCopy m.copy m
  pub filled : 0 < m.count → m.copy ≡ true
  pub batch : m.count < 2000
  pub iter : m.commit_iter < 16

some_eq : {a b : Bool} → ◌≡◌ {A = Option Bool} (some a) (some b) → a ≡ b
some_eq h = cc

-- Events on top of a log whose protocol is known.
protocol-snoc :
    (es fs : List Sent) (b c : Bool)
    → protocol es ≡ some b
    → protocol_from (some b) fs ≡ some c
    → protocol (es ++ fs) ≡ some c
protocol-snoc es fs b c h k =
    protocol-append (some false) es fs ∙ (ap (λ s. protocol_from s fs) h ∙ k)

send_both-InCopy :
    (es : List Sent) (m : Meta) (b c : Bool)
    → InCopy b m
    → protocol_from (some b) es ≡ some c
    → InCopy c (send_both es m)
send_both-InCopy es m b c (h, r) k = elim (Bool-cases m.replicated) [
  | inl y ↦ rw y (protocol-snoc m.master es b c h k, λ _. protocol-snoc m.replica es b c (r y) k)
  | inr n ↦ rw n (protocol-snoc m.master es b c h k, λ y. cc)
]

trailer-InCopy :
    (m : Meta)
    → InCopy true m
    → InCopy true (if m.binary then send_master (copy_data (255 ∷ 255 ∷ []) ∷ []) m else m)
trailer-InCopy m (h, r) = elim (Bool-cases m.binary) [
  | inl y ↦ rw y (protocol-snoc m.master (copy_data (255 ∷ 255 ∷ []) ∷ []) true true h refl, r)
  | inr n ↦ rw n (h, r)
]

pub commit-IsValid : (m : Meta) → InCopy true m → IsValid (commit m)
unfolding commit
commit-IsValid m h = record {
  linked = send_both-InCopy (copy_end ∷ []) _ true false (trailer-InCopy m h) refl;
  filled = λ lt. absurd (omega arith);
  batch = omega arith;
  iter = omega arith;
}

-- The counter of the worker goes round at 16.
pub tick_and : (n : ℕ) → n < 16 → bit_and (n + 1) 0xF ≡ (if n == 15 then 0 else n + 1)
unfolding below_all
tick_and n lt =
    (==_iff _ _).0
      (below_all_lem 16 (λ n. bit_and (n + 1) 0xF == (if n == 15 then 0 else n + 1)) n refl lt)

-- A round of the commit worker keeps the state valid, and loses no batch.
pub commit_tick-IsValid : (m : Meta) → IsValid m → IsValid (commit_tick m)
unfolding commit_tick
commit_tick-IsValid m v =
    let iter = bit_and (m.commit_iter + 1) 0xF in
    let k = tick_and m.commit_iter v.iter in
    let bound : iter < 16 = rw k (ground (arith, v.iter)) in
    elim (Bool-cases (iter == 0 && ltb 0 m.count)) [
      | inl y ↦
          let started : m.copy ≡ true = v.filled (ground arith) in
          rw y (
            commit-IsValid (record m { commit_iter = iter })
              (subst (λ b. InCopy b m) started v.linked))
      | inr n ↦
          rw n (record { linked = v.linked; filled = v.filled; batch = v.batch; iter = bound })
    ]

send_both_same :
    (es : List Sent) (m : Meta)
    → ((send_both es m).count ≡ m.count)
      × ((send_both es m).commit_iter ≡ m.commit_iter)
      × ((send_both es m).copy ≡ m.copy)
send_both_same es m = elim (Bool-cases m.replicated) [
  | inl y ↦ rw y (refl, refl, refl)
  | inr n ↦ rw n (refl, refl, refl)
]

-- A COPY is open, for the same batch.
abbrev pub Begun : Meta → Meta → Type 0
Begun m b = InCopy true b × (b.count ≡ m.count) × (b.commit_iter ≡ m.commit_iter) × (b.copy ≡ true)

pub begin_copy-Begun : (m : Meta) → IsValid m → Begun m (begin_copy m)
unfolding begin_copy
begin_copy-Begun m v =
    let opened : Meta = record (send_both (begin_events m.binary) m) { copy = true } in
    let choose : Bool → Meta = λ b. if b then m else opened in
    elim (Bool-cases m.copy) [
      | inl y ↦
          subst (λ z. Begun m z) (sym (ap choose y))
            (subst (λ b. InCopy b m) y v.linked, refl, refl, y)
      | inr n ↦
          let begun : protocol_from (some false) (begin_events m.binary) ≡ some true =
            elim (Bool-cases m.binary) [ inl b ↦ rw b refl | inr b ↦ rw b refl ] in
          let h : InCopy true opened =
            send_both-InCopy (begin_events m.binary) m false true
              (subst (λ b. InCopy b m) n v.linked) begun in
          let same = send_both_same (begin_events m.binary) m in
          subst (λ z. Begun m z) (sym (ap choose n)) (h, same.0, same.1, refl)
    ]

pub put_rows-IsValid :
    (rows : List Sent) (m b : Meta)
    → IsValid m
    → Begun m b
    → protocol_from (some true) rows ≡ some true
    → IsValid (put_rows rows b)
unfolding put_rows
put_rows-IsValid rows m b v (h, c, i, o) d =
    let linked = send_both-InCopy rows b true true h d in
    let same = send_both_same rows b in
    elim (Bool-cases ((b.count + 1) == 2000)) [
      | inl y ↦ rw y (commit-IsValid (record (send_both rows b) { count = b.count + 1 }) linked)
      | inr n ↦ rw n (record {
        linked = subst (λ k. InCopy k (send_both rows b)) (sym (same.2 ∙ o)) linked;
        filled = λ _. same.2 ∙ o;
        batch = ground (arith, v.batch, c);
        iter = omega (arith, same.1, i, v.iter);
      })
    ]

sent_eq : {a b : Meta} → sent a ≡ sent b → a ≡ b
sent_eq h = cc

pub put_message-IsValid :
    (starts : Bool) (rows : List Sent) (m m' : Meta)
    → IsValid m
    → protocol_from (some true) rows ≡ some true
    → put_message starts (some rows) m ≡ sent m'
    → IsValid m'
put_message-IsValid starts rows m m' v d run = elim (Bool-cases (not m.copy && not starts)) [
  | inl y ↦ let k = rw y at run in cc
  | inr n ↦
      let k = rw n at run in
      subst IsValid (sent_eq k) (put_rows-IsValid rows m (begin_copy m) v (begin_copy-Begun m v) d)
]
