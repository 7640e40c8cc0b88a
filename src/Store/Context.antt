-- ===== src/Store/Context.antt =====
-- src/state/session_context.rs, session_title.rs and session_cursor.rs: single columns of a session.
pub mod Cursor
use tenex_edge.Base.{ℕ, String, Bool, ◌&&◌, ◌==◌, ◌=?◌, trim, if◌then◌else◌}
use tenex_edge.Session.{Session}
use tenex_edge.Table.{update, count}
use tenex_edge.Store.{Store, session_is}
use tenex_edge.Store.Routes.{grant_session_route}

-- `now` is the clock's value, `crate::util::now_secs()`
unfoldable pub set_session_channel : String → String → ℕ → Store → Store
unfolding grant_session_route
set_session_channel pubkey channel_h now s =
    let moved = record s {
      sessions = update (session_is pubkey) (λ r. record r { channel_h = channel_h }) s.sessions;
    } in
    if trim channel_h == "" then moved else grant_session_route pubkey channel_h now moved

unfoldable pub set_session_context : String → String → String → String → ℕ → Store → Store
unfolding grant_session_route
set_session_context pubkey channel_h work_root readiness_parent now s =
    let moved = record s {
      sessions =
          update (session_is pubkey)
            (λ r. record r {
              channel_h = channel_h;
              work_root = work_root;
              readiness_parent = readiness_parent;
            })
            s.sessions;
    } in
    if trim channel_h == "" then moved else grant_session_route pubkey channel_h now moved

unfoldable pub set_session_title : String → String → Store → Store
set_session_title pubkey title s = record s {
  sessions = update (session_is pubkey) (λ r. record r { title = title }) s.sessions;
}

abbrev pub has_cursor : String → ℕ → Session → Bool
has_cursor pubkey expected r = session_is pubkey r && r.seen_cursor =? expected

unfoldable pub advance_cursor_if_current : String → ℕ → ℕ → Store → Store × Bool
advance_cursor_if_current pubkey expected seen_cursor s = (
  record s {
    sessions =
        update (has_cursor pubkey expected) (λ r. record r { seen_cursor = seen_cursor })
          s.sessions;
  },
  count (has_cursor pubkey expected) s.sessions =? 1,
)
