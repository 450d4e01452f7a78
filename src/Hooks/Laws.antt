-- ===== src/Hooks/Laws.antt =====
-- What running a hook list promises to its callers.
use schaufel.Common.{◌≡◌, refl, false, none, List, [], ◌∷◌, ◌++◌, arith, if◌then◌else◌}
use mathlib.Core.List.{append_assoc}
use schaufel.Message.{Message}
use schaufel.Hooks.{Hook, hooklist_run}

-- A list of hooks that refuses leaves the message without a payload, and with length 0.
pub hooklist_run_refused :
    (hs : List Hook) (m : Message)
    → (hooklist_run hs m).passed ≡ false
    → ((hooklist_run hs m).msg.payload ≡ none) × ((hooklist_run hs m).msg.datalen ≡ 0)
unfolding hooklist_run
hooklist_run_refused [] m e = ground arith
hooklist_run_refused (h ∷ hs) m e = ground (arith, hooklist_run_refused hs (h m).msg)

-- Running two lists one after the other is running their concatenation, unless the first refuses:
-- then the hooks of the second do not run at all.
pub hooklist_run-append :
    (hs ks : List Hook) (m : Message)
    → let r = hooklist_run hs m in
      let s = hooklist_run ks r.msg in
      hooklist_run (hs ++ ks) m ≡ (
        if r.passed
        then record { passed = s.passed; msg = s.msg; freed = r.freed ++ s.freed }
        else r)
unfolding hooklist_run
hooklist_run-append [] ks m = refl
hooklist_run-append (h ∷ hs) ks m = ground (
  arith,
  hooklist_run-append hs ks (h m).msg,
  append_assoc (h m).freed (hooklist_run hs (h m).msg).freed
      (hooklist_run ks (hooklist_run hs (h m).msg).msg).freed,
)
