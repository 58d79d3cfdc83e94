-- ===== src/Context/Artifacts/Tests.antt =====
-- An artifact of two lines.
use fleet_llm_inference.Common.{ℕ, ◌+◌, refl, String, ◌≡◌, false, none, some, [], ◌∷◌, ◌==◌}
use fleet_llm_inference.Dict
use fleet_llm_inference.Dict.{empty, lookup}
use fleet_llm_inference.Context.Models.{estimate_tokens}
use fleet_llm_inference.Context.Store.{init, total_tokens}
use fleet_llm_inference.Context.Store.Invariant.{init-IsConsistent}
use fleet_llm_inference.Context.Artifacts.{
  TextTools, log, Artifact, ContextManager, get_artifact, record_artifact, summarize_text,
}
use fleet_llm_inference.Context.Artifacts.Reference.{get_artifact-record_artifact}
use fleet_llm_inference.Samples.{whole, stamp}

-- Every text has two lines, the second of which is an error.
abbrev two_lines : TextTools
two_lines = record {
  splitlines = λ t. "start" ∷ "an error" ∷ [];
  lower = λ t. t;
  contains = λ t k. t == "an error";
  show = λ n. "2";
}

abbrev manager : ContextManager ℕ
manager = record { store = init; artifact_store = record { artifacts = empty } }

fresh : Dict.get manager.store.items stamp.id ≡ none
unfolding init Dict.get lookup empty
fresh = refl

get_artifact-record_artifact_example :
    let (m', item) =
      record_artifact two_lines whole manager "start\nan error" log
        (some "w")
        none
        none
        "a"
        3
        stamp in
    (item.artifact_id ≡ some "a")
    × (item.content ≡ summarize_text two_lines "start\nan error" 10)
    × (total_tokens m'.store "w"
        ≡ total_tokens manager.store "w"
          + estimate_tokens (summarize_text two_lines "start\nan error" 10))
    × ((artifact : Artifact ℕ) × (get_artifact m' "a" ≡ some artifact)
        × (artifact.content ≡ "start\nan error")
        × (artifact.token_count ≡ estimate_tokens "start\nan error"))
    × ((j : String) → ("a" == j) ≡ false → get_artifact m' j ≡ get_artifact manager j)
get_artifact-record_artifact_example =
    get_artifact-record_artifact two_lines whole manager "start\nan error" log "w" none none "a" 3
      stamp init-IsConsistent fresh refl
