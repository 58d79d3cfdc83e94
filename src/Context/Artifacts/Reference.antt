-- ===== src/Context/Artifacts/Reference.antt =====
-- An artifact is found by the reference that `record_artifact` of context/manager.py leaves in the context.
use fleet_llm_inference.Common.{
  String, ◌+◌, ◌≡◌, refl, false, Option, none, some, truthy, ◌==◌, eq_refl,
}
use fleet_llm_inference.Common.Floats.{Floats}
use fleet_llm_inference.Dict
use fleet_llm_inference.Dict.{get-put}
use fleet_llm_inference.Context.Models.{Stamp, estimate_tokens, post_init}
use fleet_llm_inference.Context.Store.{total_tokens}
use fleet_llm_inference.Context.Store.Invariant.{IsConsistent}
use fleet_llm_inference.Context.Store.View.{total_tokens-add}
use fleet_llm_inference.Context.Artifacts.{
  TextTools, ArtifactType, Artifact, ContextManager, get, get_artifact, create, new_artifact,
  to_reference_item, record_artifact, summarize_text,
}

module _ {F : Type 0} (T : TextTools) (ops : Floats F) where
  -- For a consistent store, a named workflow and a fresh id of the item: the item that is added refers to
  -- the artifact, and the workflow's token total grows by the estimate of the summary alone. The
  -- reference finds the artifact, whole, and all other ids find what they found before.
  pub get_artifact-record_artifact :
      (m : ContextManager F) (content : String) (type : ArtifactType) (w : String)
      (agent_id source : Option String) (id : String) (now : F) (stamp : Stamp F)
      → IsConsistent m.store
      → Dict.get m.store.items stamp.id ≡ none
      → truthy (some w) ≡ some w
      → let (m', item) =
          record_artifact T ops m content type (some w) agent_id source id now stamp in
        (item.artifact_id ≡ some id)
        × (item.content ≡ summarize_text T content 10)
        × (total_tokens m'.store w
            ≡ total_tokens m.store w + estimate_tokens (summarize_text T content 10))
        × ((artifact : Artifact F) × (get_artifact m' id ≡ some artifact)
            × (artifact.content ≡ content)
            × (artifact.token_count ≡ estimate_tokens content))
        × ((j : String) → (id == j) ≡ false → get_artifact m' j ≡ get_artifact m j)
  unfolding record_artifact get_artifact get create new_artifact to_reference_item post_init
  get_artifact-record_artifact m content type w agent_id source id now stamp c fresh t =
      let artifact = new_artifact T type content source id now in
      (
        refl,
        refl,
        total_tokens-add m.store (to_reference_item T ops artifact (some w) agent_id stamp) w c
            fresh t,
        (
          artifact,
          rw (get-put m.artifact_store.artifacts id id artifact) (rw (eq_refl id) refl),
          refl,
          refl,
        ),
        λ j e. rw (get-put m.artifact_store.artifacts id j artifact) (rw e refl),
      )
