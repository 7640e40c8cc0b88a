-- ===== src/Store/Lifecycle/Edges.antt =====
-- Presentation edges that arrive late, and turns that are reported twice.
use tenex_edge.Base.{ℕ, ◌≤◌, String, ◌≡◌, refl, Bool, false, ◌&&◌, List, All, arith}
use tenex_edge.Session.{Session, PresentationState, is_unavailable}
use tenex_edge.Table.{update}
use tenex_edge.Table.Idle.{update_none, count_none, All-none_after}
use tenex_edge.Store.{Store}
use tenex_edge.Store.Stopping.{is_running_generation}
use tenex_edge.Store.Lifecycle.{is_newer_edge, edge_row, apply_session_presentation_edge}

abbrev takes_edge : String → ℕ → ℕ → Session → Bool
takes_edge pk g epoch r = is_running_generation pk g r && is_newer_edge epoch r

-- Once an edge has been applied, or was too late, an older one passes no row.
older_edge_misses :
    (pk : String) (g epoch epoch' : ℕ) (p : PresentationState) (at : ℕ) (t : List Session)
    → epoch' ≤ epoch
    → is_unavailable p ≡ false
    → All
        (λ r. takes_edge pk g epoch' r ≡ false)
        (update (takes_edge pk g epoch) (edge_row epoch p at) t)
unfolding is_newer_edge edge_row
older_edge_misses pk g epoch epoch' p at t older shown =
    All-none_after (takes_edge pk g epoch') (takes_edge pk g epoch) (edge_row epoch p at) t
      (λ r hit. ground arith) (λ r miss. ground arith)

-- In the store that an edge of the presentation leaves which shows the session, whether it was taken
-- or not, no edge of the same or an earlier epoch changes anything, and it reports that it was
-- ignored.
pub late_edge_ignored :
    (pk : String) (g epoch epoch' : ℕ) (p p' : PresentationState) (at at' : ℕ) (s : Store)
    → epoch' ≤ epoch
    → is_unavailable p ≡ false
    → apply_session_presentation_edge pk g epoch' p' at'
        (apply_session_presentation_edge pk g epoch p at s).0
      ≡ ((apply_session_presentation_edge pk g epoch p at s).0, false)
unfolding apply_session_presentation_edge
late_edge_ignored pk g epoch epoch' p p' at at' s older shown =
    let misses = older_edge_misses pk g epoch epoch' p at s.sessions older shown in
    rw
      (
        count_none (takes_edge pk g epoch')
            (update (takes_edge pk g epoch) (edge_row epoch p at) s.sessions) misses,
        update_none (takes_edge pk g epoch') (edge_row epoch' p' at')
            (update (takes_edge pk g epoch) (edge_row epoch p at) s.sessions) misses,
      )
      refl
