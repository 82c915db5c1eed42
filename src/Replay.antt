-- ===== src/Replay.antt =====
-- scr/replay.py: a session is run again in a fresh store, and the ledger heads are compared. `build`
-- gives the kernel of a session; its adapter and tools start from the same world each time.
use selfconnect_runtime.Base.{ℕ, String, Bool, ◌&&◌, some, eqb, string_eq, ◌==◌, ok, err}
use selfconnect_runtime.State.{Store, empty_store, create_session}
use selfconnect_runtime.Ledger.{head}
use selfconnect_runtime.Kernel.{Kernel, run}

pub record ReplayResult : Type 0 where
  pub matches : Bool
  pub source_head : String
  pub replay_head : String
  pub source_count : ℕ
  pub replay_count : ℕ

-- `Store(":memory:")` with the session
unfoldable pub fresh_store : String → Store
unfolding create_session
fresh_store session = elim (create_session empty_store (some session) session) [
  | ok (s, sid) ↦ s
  | err e ↦ empty_store
]

module _ {W : Type 0} (build : String → Kernel W) (start : W) where
  -- The head and the count of the ledger after a run in a fresh store.
  unfoldable pub replayed_head : String → String → String × ℕ
  unfolding head fresh_store run
  replayed_head session user_text =
      head
        (run (build session) session user_text
          (record { store = fresh_store session; world = start })).1.store
        session

  unfoldable pub run_and_replay : String → String → ReplayResult
  unfolding replayed_head
  run_and_replay session user_text =
      let (src_head, src_count) = replayed_head session user_text in
      let (rep_head, rep_count) = replayed_head session user_text in
      record {
        matches = src_head == rep_head && eqb src_count rep_count;
        source_head = src_head;
        replay_head = rep_head;
        source_count = src_count;
        replay_count = rep_count;
      }

  unfoldable pub replay_matches : Store → String → String → Bool
  unfolding head replayed_head
  replay_matches source session user_text =
      let (src_head, src_count) = head source session in
      let (rep_head, rep_count) = replayed_head session user_text in
      src_head == rep_head && eqb src_count rep_count
