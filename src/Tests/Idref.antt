-- ===== src/Tests/Idref.antt =====
-- Labels of agents at concrete inputs.
use tenex_edge.Base.{◌≡◌, refl, some}
use tenex_edge.Base.{trim, trim_start, trim_end, is_whitespace, all_chars}
use tenex_edge.Idref.{agent, agent_label, agent_ref_from, parse_agent_backend_ref, parse_ref}
use tenex_edge.Idref.Labels.{label_reads_back}

label_reads_back_example :
    (parse_agent_backend_ref (agent_label "coder" "tower")
      ≡ some (record { slug = "coder"; backend = some "tower" }))
    × (parse_ref (agent_label "coder" "tower") ≡ agent "coder" "tower")
    × (parse_ref (agent_ref_from "coder" "tower" "laptop") ≡ agent "coder" "tower")
unfolding trim trim_start trim_end is_whitespace all_chars
label_reads_back_example = label_reads_back "coder" "tower" "laptop" refl refl refl refl refl refl
