-- ===== src/Hooks.antt =====
-- src/hooks.c: the list of hooks at a hook point, and running it on a message.
use schaufel.Common.{ℕ, Bool, true, false, none, List, [], ◌∷◌, ◌++◌, if◌then◌else◌}
use schaufel.Message.{Message, Block, free_data, metadata_free}
pub mod Laws
pub mod Config

-- What a call of a hook does: its verdict, the message afterwards, and the blocks that it frees.
pub record Ran : Type 0 where
  pub passed : Bool
  pub msg : Message
  pub freed : List Block

-- `hook->hook(hook->ctx, msg)`, with the context of the hook bound.
abbrev pub Hook : Type 0
Hook = Message → Ran

-- The branch of `hooklist_run` that drops the message.
unfoldable pub discard : Message → Message
discard m = record m { payload = none; datalen = 0 }

-- `hooklist_run`: the first hook that refuses ends the loop, and the message is freed.
unfoldable pub hooklist_run : List Hook → Message → Ran
unfolding discard
hooklist_run [] m = record { passed = true; msg = m; freed = [] }
hooklist_run (h ∷ hs) m =
    let r = h m in
    let rest = hooklist_run hs r.msg in
    if r.passed
    then record { passed = rest.passed; msg = rest.msg; freed = r.freed ++ rest.freed }
    else record {
      passed = false;
      msg = discard r.msg;
      freed = r.freed ++ (free_data r.msg.payload ++ metadata_free r.msg.metadata);
    }
