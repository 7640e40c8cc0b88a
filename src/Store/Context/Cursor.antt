-- ===== src/Store/Context/Cursor.antt =====
-- src/state/session_cursor.rs: the awareness cursor is compared and swapped.
use tenex_edge.Base.{ℕ, String, ◌≡◌, refl, false, ◌=?◌, arith}
use tenex_edge.Session.{Session}
use tenex_edge.Table.{update}
use tenex_edge.Table.Idle.{update_none, count_none, All-none_after}
use tenex_edge.Store.{Store}
use tenex_edge.Store.Context.{has_cursor, advance_cursor_if_current}

-- Of two callers that read the same cursor of a session, only the first one advances it: once the first
-- has moved the cursor to another value, the second is refused and writes nothing.
pub cursor_advanced_once :
    (pk : String) (expected seen seen' : ℕ) (s : Store)
    → (seen =? expected) ≡ false
    → advance_cursor_if_current pk expected seen' (advance_cursor_if_current pk expected seen s).0
      ≡ ((advance_cursor_if_current pk expected seen s).0, false)
unfolding advance_cursor_if_current
cursor_advanced_once pk expected seen seen' s moved =
    let move = λ (r : Session). record r { seen_cursor = seen } in
    let t = update (has_cursor pk expected) move s.sessions in
    let misses =
      All-none_after (has_cursor pk expected) (has_cursor pk expected) move s.sessions
        (λ r hit. ground arith) (λ r miss. miss) in
    rw
      (
        count_none (has_cursor pk expected) t misses,
        update_none (has_cursor pk expected) (λ r. record r { seen_cursor = seen' }) t misses,
      )
      refl
