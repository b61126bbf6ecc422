-- ===== src/ProofQueue/Accounts.antt =====
-- `apply` of localbench/proofqueue.py as one call or two of `br` for each action, and the summary as lists over
-- the actions that succeeded.
use localbench.Base.{
  String, Bool, true, false, not, ◌&&◌, List, [], ◌∷◌, ◌++◌, map, select, all, if◌then◌else◌,
}
use localbench.ProofQueue.Planned.{Action, create, comment, adopt, close, noop}
use localbench.ProofQueue.Applied.{Summary, Applied, ok, err}

-- An action, and whether its calls succeeded.
pub record Trial : Type 0 where
  pub action : Action
  pub succeeded : Bool

abbrev is_create : Action → Bool
is_create (create title body) = true
is_create (comment id title body note) = false
is_create (adopt id title note) = false
is_create (close id title reason) = false
is_create (noop title) = false

abbrev is_comment : Action → Bool
is_comment (create title body) = false
is_comment (comment id title body note) = true
is_comment (adopt id title note) = false
is_comment (close id title reason) = false
is_comment (noop title) = false

abbrev is_adopt : Action → Bool
is_adopt (create title body) = false
is_adopt (comment id title body note) = false
is_adopt (adopt id title note) = true
is_adopt (close id title reason) = false
is_adopt (noop title) = false

abbrev is_close : Action → Bool
is_close (create title body) = false
is_close (comment id title body note) = false
is_close (adopt id title note) = false
is_close (close id title reason) = true
is_close (noop title) = false

abbrev is_noop : Action → Bool
is_noop (create title body) = false
is_noop (comment id title body note) = false
is_noop (adopt id title note) = false
is_noop (close id title reason) = false
is_noop (noop title) = true

abbrev title : Action → String
title (create text body) = text
title (comment id text body note) = text
title (adopt id text note) = text
title (close id text reason) = text
title (noop text) = text

-- The titles of the actions of a kind that succeeded, and of the ones that failed.
abbrev titles : (Action → Bool) → List Trial → List String
titles kind ts = map (λ (t : Trial). title t.action) (select (λ t. kind t.action && t.succeeded) ts)

abbrev failures : List Trial → List String
failures ts = map (λ (t : Trial). title t.action) (select (λ t. not t.succeeded) ts)

abbrev summary_of : List Trial → Summary
summary_of ts = record {
  filed = titles is_create ts;
  updated = titles is_comment ts;
  adopted_titles = titles is_adopt ts;
  closed = titles is_close ts;
  noops = titles is_noop ts;
  errors = [];
}

abbrev pub account : List Trial → Applied
account ts = if all (λ t. t.succeeded) ts then ok (summary_of ts) else err (failures ts)

module _ {W : Type 0} (br : List String → W → Bool × W) where
  -- What each action asks of `br`: a second call only where the first succeeded.
  abbrev ask : Action → W → Bool × W
  ask (create text body) w =
      br
        ("create" ∷ "--silent" ∷ "--type" ∷ "task" ∷ "--priority" ∷ "3" ∷ "--labels" ∷ "side-model"
          ∷ "--title" ∷ text ∷ "--description" ∷ body ∷ [])
        w
  ask (comment id text body note) w =
      let (done, u) = br ("update" ∷ id ∷ "--description" ∷ body ∷ []) w in
      if done then br ("comments" ∷ "add" ∷ id ∷ "-m" ∷ note ∷ []) u else (false, u)
  ask (adopt id text note) w = br ("comments" ∷ "add" ∷ id ∷ "-m" ∷ note ∷ []) w
  ask (close id text reason) w = br ("close" ∷ id ∷ "--reason" ∷ reason ∷ []) w
  ask (noop text) w = (true, w)

  -- The actions one after the other, each in the world that the ones before it left.
  abbrev pub try_all : List Action → W → List Trial × W
  try_all [] w = ([], w)
  try_all (a ∷ rest) w =
      let (done, u) = ask a w in
      let (ts, v) = try_all rest u in (record { action = a; succeeded = done } ∷ ts, v)

-- A summary with the trials that follow it.
abbrev extend : Summary → List Trial → Summary
extend s ts = record {
  filed = s.filed ++ titles is_create ts;
  updated = s.updated ++ titles is_comment ts;
  adopted_titles = s.adopted_titles ++ titles is_adopt ts;
  closed = s.closed ++ titles is_close ts;
  noops = s.noops ++ titles is_noop ts;
  errors = s.errors ++ failures ts;
}
