-- ===== src/ThreadState.antt =====
-- packages/harness/deerflow/agents/thread_state.py: the reducers that merge an update of a thread's
-- state into what is there. A reducer that raises has no result.
pub mod Artifacts
use deer_seek_backend.Prelude.{
  String, Bool, Option, none, some, List, [], ◌∷◌, ◌++◌, ◌==◌, string_eq, option_eq, dedupe,
  if◌then◌else◌,
}
use deer_seek_backend.Dict.{Dict, put}

pub record SandboxState : Type 0 where
  pub sandbox_id : Option String

unfoldable pub merge_sandbox :
    Option SandboxState → Option SandboxState → Option (Option SandboxState)
merge_sandbox existing none = some existing
merge_sandbox none (some new) = some (some new)
merge_sandbox (some existing) (some new) =
    if existing.sandbox_id == new.sandbox_id then some (some existing) else none

unfoldable pub merge_artifacts : Option (List String) → Option (List String) → List String
merge_artifacts none none = []
merge_artifacts none (some new) = new
merge_artifacts (some existing) none = existing
merge_artifacts (some existing) (some new) = dedupe (existing ++ new)

-- {**existing, **new}
unfoldable pub merge_dicts : {V : Type 0} → Dict String V → Dict String V → Dict String V
merge_dicts existing [] = existing
merge_dicts existing ((k, v) ∷ new) = merge_dicts (put existing k v) new

unfoldable pub merge_viewed_images :
    {V : Type 0} → Option (Dict String V) → Option (Dict String V) → Dict String V
unfolding merge_dicts
merge_viewed_images none none = []
merge_viewed_images none (some new) = new
merge_viewed_images (some existing) none = existing
merge_viewed_images (some existing) (some []) = []
merge_viewed_images (some existing) (some (i ∷ new)) = merge_dicts existing (i ∷ new)

unfoldable pub merge_todos : {J : Type 0} → Option (List J) → Option (List J) → Option (List J)
merge_todos existing none = existing
merge_todos existing (some new) = some new

pub record PromotedTools : Type 0 where
  pub catalog_hash : String
  pub names : List String

-- An update `{}` is as good as `None`, and stands for it here.
unfoldable pub merge_promoted : Option PromotedTools → Option PromotedTools → Option PromotedTools
merge_promoted existing none = existing
merge_promoted none (some new) =
    some record { catalog_hash = new.catalog_hash; names = dedupe new.names }
merge_promoted (some existing) (some new) =
    if existing.catalog_hash == new.catalog_hash
    then some record {
      catalog_hash = existing.catalog_hash;
      names = dedupe (existing.names ++ new.names);
    }
    else some record { catalog_hash = new.catalog_hash; names = dedupe new.names }
