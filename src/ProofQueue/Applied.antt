-- ===== src/ProofQueue/Applied.antt =====
-- `apply` of localbench/proofqueue.py: the calls of `br` for each action. `br` is a function over an outside
-- world, and tells whether the call succeeded. An error is the title of its action: the text that follows it in
-- the code's message is left out.
use localbench.Base.{String, Bool, true, false, List, [], ◌∷◌, ◌++◌, if◌then◌else◌}
use localbench.ProofQueue.Planned.{Action, create, comment, adopt, close, noop}

pub record Summary : Type 0 where
  pub filed : List String
  pub updated : List String
  pub adopted_titles : List String
  pub closed : List String
  pub noops : List String
  pub errors : List String

abbrev pub empty_summary : Summary
empty_summary = record {
  filed = [];
  updated = [];
  adopted_titles = [];
  closed = [];
  noops = [];
  errors = [];
}

-- The summary, or the errors that the code raises.
pub data Applied : Type 0 where
  ok : Summary → Applied
  err : List String → Applied

abbrev pub result_of : Summary → List String → Applied
result_of s [] = ok s
result_of s (e ∷ es) = err (e ∷ es)

abbrev pub create_argv : String → String → List String
create_argv title body =
    "create" ∷ "--silent" ∷ "--type" ∷ "task" ∷ "--priority" ∷ "3" ∷ "--labels" ∷ "side-model"
    ∷ "--title" ∷ title ∷ "--description" ∷ body ∷ []

abbrev pub calls_of : Action → List (List String)
calls_of (create title body) = create_argv title body ∷ []
calls_of (comment id title body note) =
    ("update" ∷ id ∷ "--description" ∷ body ∷ [])
    ∷ ("comments" ∷ "add" ∷ id ∷ "-m" ∷ note ∷ [])
    ∷ []
calls_of (adopt id title note) = ("comments" ∷ "add" ∷ id ∷ "-m" ∷ note ∷ []) ∷ []
calls_of (close id title reason) = ("close" ∷ id ∷ "--reason" ∷ reason ∷ []) ∷ []
calls_of (noop title) = []

abbrev pub action_title : Action → String
action_title (create title body) = title
action_title (comment id title body note) = title
action_title (adopt id title note) = title
action_title (close id title reason) = title
action_title (noop title) = title

abbrev pub record_done : Action → Summary → Summary
record_done (create title body) s = record s { filed = s.filed ++ title ∷ [] }
record_done (comment id title body note) s = record s { updated = s.updated ++ title ∷ [] }
record_done (adopt id title note) s = record s { adopted_titles = s.adopted_titles ++ title ∷ [] }
record_done (close id title reason) s = record s { closed = s.closed ++ title ∷ [] }
record_done (noop title) s = record s { noops = s.noops ++ title ∷ [] }

module _ {W : Type 0} (br : List String → W → Bool × W) where
  -- The calls of one action; a call that fails ends them.
  abbrev pub run_calls : List (List String) → W → Bool × W
  run_calls [] w = (true, w)
  run_calls (argv ∷ rest) w =
      let (done, u) = br argv w in
      let later = run_calls rest u in if done then later else (false, u)

  abbrev pub recorded : Action → Bool → Summary → Summary
  recorded a done s =
      if done then record_done a s else record s { errors = s.errors ++ action_title a ∷ [] }

  unfoldable pub apply_each : List Action → Summary → W → Summary × W
  apply_each [] s w = (s, w)
  apply_each (a ∷ rest) s w =
      let (done, u) = run_calls (calls_of a) w in apply_each rest (recorded a done s) u

  unfoldable pub apply : List Action → W → Applied × W
  unfolding apply_each
  apply actions w = let (s, u) = apply_each actions empty_summary w in (result_of s s.errors, u)
