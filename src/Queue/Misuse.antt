-- ===== src/Queue/Misuse.antt =====
-- Paths of src/queue.c that free a block twice, the hooks of `queue_init`, and `queue_free`.
use mathlib.Core.List.{append_assoc}
use schaufel.Common.{
  ℕ, suc, ◌+◌, ◌*◌, zero, ◌<◌, ◌≤◌, ◌≡◌, refl, sym, ap, ◌∙◌, Bool, true, false, Option, none, some,
  List, [], ◌∷◌, ◌++◌, length, arith, All, if◌then◌else◌,
}
use schaufel.Message.{Message, Block, table_at, free_data, metadata_free}
use schaufel.Hooks.{Hook, hooklist_run, discard}
use schaufel.Hooks.Laws.{hooklist_run-append}
use schaufel.Queue.{Heap, update, Queue}
use schaufel.Queue.Segment.{Entry, Segment, Avoids, Distinct, head_or, Segment-update}
use schaufel.Queue.Add.{update_ne}
use schaufel.Queue.Model.{Holds}
use schaufel.Queue.Calls.{ebadmsg, queue_add, queue_init, free_nodes, Timespec, deadline}

freed_twice :
    (xs : List Block) (md : Option ℕ) (t : ℕ)
    → md ≡ some t
    → (xs ++ metadata_free md) ++ metadata_free md ≡ xs ++ (table_at t ∷ table_at t ∷ [])
freed_twice xs md t e = rw e (append_assoc xs (table_at t ∷ []) (table_at t ∷ []))

-- A message whose metadata table stands at `t` and whose postadd hook refuses it, freeing nothing
-- itself: `queue_add` returns EBADMSG, and the table has been freed twice, by `hooklist_run` and by
-- `queue_add`.
pub queue_add-double_free :
    (others : List (Queue → Queue)) (q : Queue) (h : Hook) (hs : List Hook) (p t : ℕ) (m : Message)
    (room : Bool)
    → q.postadd ≡ h ∷ hs
    → m.metadata ≡ some t
    → h m ≡ record { passed = false; msg = m; freed = [] }
    → queue_add others (some p) true room q m
      ≡ ebadmsg q (free_data m.payload ++ (table_at t ∷ table_at t ∷ []))
unfolding queue_add hooklist_run
queue_add-double_free others q h hs p t m room qh mt refuses =
    let refused : hooklist_run q.postadd m ≡ record {
      passed = false;
      msg = discard m;
      freed = free_data m.payload ++ metadata_free m.metadata;
    } =
      ap (λ l. hooklist_run l m) qh ∙ rw refuses refl in
    rw refused (ap (ebadmsg q) (freed_twice (free_data m.payload) m.metadata t mt))

-- `queue_init` adds the hooks of the setting `preget` to the postadd list: they run in `queue_add`
-- after those of `postadd`, and `queue_get` runs none.
pub queue_init_hooks :
    (postadd preget : List Hook) (m : Message)
    → let q = queue_init postadd preget in
      let r = hooklist_run postadd m in
      let s = hooklist_run preget r.msg in
      (hooklist_run q.postadd m ≡ (
        if r.passed
        then record { passed = s.passed; msg = s.msg; freed = r.freed ++ s.freed }
        else r))
      × (hooklist_run q.preget m ≡ record { passed = true; msg = m; freed = [] })
unfolding queue_init hooklist_run
queue_init_hooks postadd preget m = (hooklist_run-append postadd preget m, refl)

-- The deadline of a wait is the present and the timeout together, as one number of nanoseconds, and
-- its nanoseconds are in range.
pub deadline_lem :
    (sec usec : ℕ) (timeout : Timespec)
    → usec < 1000000
    → timeout.nsec < 1000000000
    → let d = deadline sec usec timeout in
      (d.nsec < 1000000000)
      × (d.sec * 1000000000 + d.nsec
          ≡ (sec + timeout.sec) * 1000000000 + usec * 1000 + timeout.nsec)
unfolding deadline
deadline_lem sec usec timeout u n = ground arith

abbrev addresses : List Entry → List ℕ
addresses [] = []
addresses (e ∷ es) = e.addr ∷ addresses es

free_nodes-Segment :
    (fuel : ℕ) (cell : Heap) (pv : Option ℕ) (es : List Entry) (xn : ℕ → Option ℕ)
    → length es ≤ fuel
    → Distinct es
    → Segment cell pv es none xn
    → (c : Heap) × (free_nodes fuel cell (head_or es none) ≡ some (addresses es, c))
      × All (λ e. c e.addr ≡ none) es
      × ((b : ℕ) → Avoids b es → c b ≡ cell b)
unfolding free_nodes
free_nodes-Segment fuel cell pv [] xn le d s = (cell, refl, tt, λ b h. refl)
free_nodes-Segment zero cell pv (e ∷ es) xn le d s = absurd (omega arith)
free_nodes-Segment (suc fuel) cell pv (e ∷ es) xn le d s =
    let cell' = update cell e.addr none in
    let (c, run, gone, same) =
      free_nodes-Segment fuel cell' (some e.addr) es xn (omega arith) d.1
        (Segment-update cell e.addr none (some e.addr) es none xn d.0 s.1) in
    (
      c,
      rw (s.0, run) refl,
      (same e.addr d.0 ∙ ground arith, gone),
      λ b h. same b h.1 ∙ update_ne cell e.addr b none (λ p. h.0 (sym p)),
    )

-- `queue_free` frees the nodes of the messages that the queue holds, each once and in order, if it
-- may go round as often as there are messages: afterwards none of them is allocated, and every
-- other block is as it was.
pub free_nodes_lem :
    (q : Queue) (es : List Entry)
    → Holds q es
    → (c : Heap) × (free_nodes q.length q.cell q.first ≡ some (addresses es, c))
      × All (λ e. c e.addr ≡ none) es
      × ((b : ℕ) → Avoids b es → c b ≡ q.cell b)
free_nodes_lem q es h =
    rw (h.is_first, h.counted)
      (free_nodes-Segment (length es) q.cell none es _ (omega arith) h.distinct h.segment)
