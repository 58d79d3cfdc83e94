-- ===== src/Context/Artifacts.antt =====
-- context/artifacts.py, and the three methods of context/manager.py on artifacts. What the code uses
-- of Python's `str` is a parameter.
pub mod Summary
pub mod Reference
mod Tests
use fleet_llm_inference.Common.{
  ℕ, ◌-◌, ◌+◌, String, ◌<>◌, Bool, true, false, Option, none, some, List, [], ◌∷◌, ◌++◌, length,
  take, drop, keep, any, join, if◌then◌else◌, ltb,
}
use fleet_llm_inference.Common.Int.{ℤ, pos, negsuc}
use fleet_llm_inference.Common.Floats.{Floats}
use fleet_llm_inference.Dict
use fleet_llm_inference.Dict.{Dict}
use fleet_llm_inference.Context.Models.{ContextItem, Stamp, summary, estimate_tokens, post_init}
use fleet_llm_inference.Context.Store
use fleet_llm_inference.Context.Store.{ContextStore}

pub data ArtifactType : Type 0 where
  file tool_output log document : ArtifactType

-- `splitlines`, `lower`, `k in text`, and the text of a number.
pub record TextTools : Type 0 where
  pub splitlines : String → List String
  pub lower : String → String
  pub contains : String → String → Bool
  pub show : ℕ → String

abbrev pub default_summary_keywords : List String
default_summary_keywords = "error" ∷ "fail" ∷ "exception" ∷ "traceback" ∷ []

-- The text of `list(keywords)` for the keywords by default.
abbrev pub default_keywords_text : String
default_keywords_text = "['error', 'fail', 'exception', 'traceback']"

-- `lines or [content]`
abbrev pub lines_or : List String → String → List String
lines_or [] content = content ∷ []
lines_or (l ∷ lines) content = l ∷ lines

-- `lines[start:end]`: a negative bound counts from the end.
abbrev pub bound : ℤ → ℕ → ℕ
bound (pos n) size = n
bound (negsuc n) size = size - (n + 1)

abbrev pub slice {ℓ} : {A : Type ℓ} → ℤ → ℤ → List A → List A
slice start stop xs =
    let from = bound start (length xs) in take (bound stop (length xs) - from) (drop from xs)

-- The lines that a summary shows, its first line, and how many lines it hides.
pub record Excerpt : Type 0 where
  pub header : String
  pub shown : List String
  pub hidden : ℕ

module _ (T : TextTools) where
  open T use {splitlines, lower, contains, show}

  abbrev pub lines_of : String → List String
  lines_of content = lines_or (splitlines content) content

  abbrev pub is_match : String → Bool
  is_match line = any (λ (k : String). contains (lower line) k) default_summary_keywords

  -- The two branches on `matched`.
  unfoldable pub excerpt : List String → List String → ℕ → Excerpt
  excerpt lines [] max_lines = record {
    header =
        show (length lines)
        <> (" lines total, first " <> (show (length (take max_lines lines)) <> " shown:"));
    shown = take max_lines lines;
    hidden = length lines - length (take max_lines lines);
  }
  excerpt lines (l ∷ matched) max_lines = record {
    header =
        show (length lines)
        <> (" lines total, "
            <> (show (length (l ∷ matched)) <> (" matched " <> (default_keywords_text <> ":"))));
    shown = take max_lines (l ∷ matched);
    hidden = length (l ∷ matched) - length (take max_lines (l ∷ matched));
  }

  abbrev pub closing : ℕ → List String
  closing hidden =
      if ltb 0 hidden then ("... (" <> (show hidden <> " more not shown)")) ∷ [] else []

  -- With the keywords by default.
  unfoldable pub summarize_text : String → ℕ → String
  unfolding excerpt
  summarize_text content max_lines =
      let lines = lines_of content in
      let e = excerpt lines (keep is_match lines) max_lines in
      join "\n" (e.header ∷ (e.shown ++ closing e.hidden))

pub record Artifact (F : Type 0) : Type 0 where
  pub type : ArtifactType
  pub content : String
  pub source : Option String
  pub id : String
  pub summary : String
  pub token_count : ℕ
  pub created_at : F

pub record ArtifactStore (F : Type 0) : Type 0 where
  pub artifacts : Dict (Artifact F)

-- The two stores of the context manager.
pub record ContextManager (F : Type 0) : Type 0 where
  pub store : ContextStore F
  pub artifact_store : ArtifactStore F

module _ {F : Type 0} where
  unfoldable pub get : ArtifactStore F → String → Option (Artifact F)
  get s artifact_id = Dict.get s.artifacts artifact_id

  unfoldable pub get_artifact : ContextManager F → String → Option (Artifact F)
  unfolding get
  get_artifact m artifact_id = get m.artifact_store artifact_id

  module _ (T : TextTools) where
    -- A new artifact after `__post_init__`; `id` and `now` come from uuid4 and the clock.
    unfoldable pub new_artifact : ArtifactType → String → Option String → String → F → Artifact F
    unfolding summarize_text estimate_tokens
    new_artifact type content source id now = record {
      type = type;
      content = content;
      source = source;
      id = id;
      summary = summarize_text T content 10;
      token_count = estimate_tokens content;
      created_at = now;
    }

    unfoldable pub create :
        ArtifactStore F
        → ArtifactType
        → String
        → Option String
        → String
        → F
        → ArtifactStore F × Artifact F
    unfolding new_artifact
    create s type content source id now =
        let artifact = new_artifact type content source id now in
        (record { artifacts = Dict.put s.artifacts id artifact }, artifact)

    abbrev pub excerpt_of : Option (Artifact F) → ℤ → ℤ → Option String
    excerpt_of none start stop = none
    excerpt_of (some artifact) start stop =
        some (join "\n" (slice start stop (T.splitlines artifact.content)))

    unfoldable pub get_excerpt : ArtifactStore F → String → ℤ → ℤ → Option String
    unfolding get
    get_excerpt s artifact_id start stop = excerpt_of (get s artifact_id) start stop

    unfoldable pub get_artifact_excerpt : ContextManager F → String → ℤ → ℤ → Option String
    unfolding get_excerpt
    get_artifact_excerpt m artifact_id start stop =
        get_excerpt m.artifact_store artifact_id start stop

    module _ (ops : Floats F) where
      unfoldable pub to_reference_item :
          Artifact F → Option String → Option String → Stamp F → ContextItem F
      unfolding post_init
      to_reference_item artifact workflow_id agent_id stamp = post_init (record {
        type = summary;
        content = artifact.summary;
        source = artifact.source;
        agent_id = agent_id;
        workflow_id = workflow_id;
        importance = ops.literal 5 10;
        relevance = ops.literal 5 10;
        artifact_id = some artifact.id;
        id = stamp.id;
        token_count = 0;
        created_at = stamp.created_at;
        last_accessed_at = stamp.last_accessed_at;
      })

      unfoldable pub record_artifact :
          ContextManager F
          → String
          → ArtifactType
          → Option String
          → Option String
          → Option String
          → String
          → F
          → Stamp F
          → ContextManager F × ContextItem F
      unfolding create to_reference_item Store.add
      record_artifact m content artifact_type workflow_id agent_id source id now stamp =
          let (artifacts, artifact) = create m.artifact_store artifact_type content source id now in
          let item = to_reference_item artifact workflow_id agent_id stamp in
          (record { store = Store.add m.store item; artifact_store = artifacts }, item)
