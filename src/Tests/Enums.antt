-- ===== src/Tests/Enums.antt =====
-- Texts and observers' views.
use tenex_edge.Base.{◌≡◌, ◌↔◌, ◌⊎◌, ◌≤◌, ◌<◌, true, arith}
use tenex_edge.SessionState.{idle, is_live, semantic_change_at}
use tenex_edge.SessionState.Rendering.{semantic_change_at_lem}

semantic_change_at_example :
    (50 ≤ semantic_change_at idle 50 100 200)
    × (semantic_change_at idle 50 100 200 ≤ 200)
    × ((100 < semantic_change_at idle 50 100 200)
        ↔ ((100 < 50) ⊎ ((is_live idle ≡ true) × (100 < 200))))
semantic_change_at_example = semantic_change_at_lem idle 50 100 200 (omega arith) (omega arith)
