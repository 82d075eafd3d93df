-- ===== src/Workspaces/Tests.antt =====
-- Two repositories whose directories have one name, and the theorems at them.
use code_suit.Base.{ℕ, String, true, false, some, [], ◌∷◌, ◌≡◌, refl, contains, string_eq}
use code_suit.Base.Dict.{lookup, erase}
use code_suit.Base.Result.{Result, ok, err}
use code_suit.Workspaces.{Disk, WorkspaceError, key_error, next_repository_id}
use code_suit.Workspaces.Fresh.{IsInjective, next_repository_id-IsFresh}
use code_suit.Workspaces.Registry.{
  OpenState, open_call, attach_call, close_call, registry_calls, new_registry, open_workspace,
}
use code_suit.Workspaces.Registry.NoKeyError.{NoKeyError, open_workspace-NoKeyError}
use code_suit.Workspaces.Registry.Kept.{AreWorkspaces, registry_calls-AreWorkspaces}

-- As many marks as the number.
abbrev marks : ℕ → String
marks ℕ.zero = ""
marks (ℕ.suc n) = String.◌∷◌ "i" (marks n)

marks-IsInjective : IsInjective marks
marks-IsInjective ℕ.zero ℕ.zero e = refl
marks-IsInjective ℕ.zero (ℕ.suc n) e = cc
marks-IsInjective (ℕ.suc m) ℕ.zero e = cc
marks-IsInjective (ℕ.suc m) (ℕ.suc n) e =
    let rest : marks m ≡ marks n = cc in cc (marks-IsInjective m n rest)

-- Every directory is a supported repository called x.
abbrev disk : Disk
disk = record {
  resolve = λ p. p;
  exists = λ p. true;
  is_dir = λ p. true;
  parents = λ p. "/" ∷ [];
  name = λ p. "x";
  has_vc_marker = λ p. false;
  has_ide_marker = λ p. false;
  has_suit = λ p. false;
  has_suit_dir = λ p. false;
  supported = λ p. ok true;
  attaches = λ p. true;
  decimal = marks;
}

abbrev opened : Result WorkspaceError OpenState → Result WorkspaceError String
opened (ok o) = ok o.repository.id
opened (err e) = err e

second_name : next_repository_id disk ("repo:x" ∷ "repo:x-ii" ∷ []) "/b/x" ≡ some "repo:x-iii"
unfolding next_repository_id
second_name = refl

-- The second workspace takes the place of the first, which has the same id; when it is closed the
-- root of the first still leads to it.
stale_root :
    opened
      (open_workspace disk "/a/x" (
        registry_calls
          (open_call disk "/a/x" ∷ open_call disk "/b/x" ∷ close_call "workspace:x" ∷ [])
          new_registry)).0
    ≡ err key_error
unfolding open_workspace registry_calls erase lookup
stale_root = refl

-- Closed and opened again.
reopened :
    opened
      (open_workspace disk "/a/x"
        (registry_calls (open_call disk "/a/x" ∷ close_call "workspace:x" ∷ []) new_registry)).0
    ≡ ok "repo:x"
unfolding open_workspace registry_calls erase lookup
reopened = refl

attached_twice :
    opened
      (open_workspace disk "/b/x" (
        registry_calls
          (open_call disk "/a/x" ∷ attach_call disk "workspace:x" "/b/x" ∷ [])
          new_registry)).0
    ≡ ok "repo:x-ii"
unfolding open_workspace registry_calls erase lookup
attached_twice = refl

next_repository_id-IsFresh_example :
    (id : String) × (next_repository_id disk ("repo:x" ∷ "repo:x-ii" ∷ []) "/b/x" ≡ some id)
    × (contains ("repo:x" ∷ "repo:x-ii" ∷ []) id ≡ false)
next_repository_id-IsFresh_example =
    next_repository_id-IsFresh disk ("repo:x" ∷ "repo:x-ii" ∷ []) "/b/x" marks-IsInjective

registry_calls-AreWorkspaces_example : AreWorkspaces (
    registry_calls
      (open_call disk "/a/x" ∷ attach_call disk "workspace:x" "/b/x" ∷ [])
      new_registry)
registry_calls-AreWorkspaces_example =
    registry_calls-AreWorkspaces
      (open_call disk "/a/x" ∷ attach_call disk "workspace:x" "/b/x" ∷ [])

open_workspace-NoKeyError_example :
    NoKeyError
      (open_workspace disk "/b/x"
        (registry_calls (open_call disk "/a/x" ∷ open_call disk "/b/x" ∷ []) new_registry)).0
open_workspace-NoKeyError_example =
    open_workspace-NoKeyError (open_call disk "/a/x" ∷ open_call disk "/b/x" ∷ []) disk "/b/x" refl
