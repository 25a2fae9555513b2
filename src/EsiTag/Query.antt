-- ===== src/EsiTag/Query.antt =====
-- esitag/esi_tag.go, `Entity.QueryResources`, with `Resource.DoRequest` of esitag/resource.go: the
-- resources of a tag are asked one after the other, and each has a circuit breaker.
-- A backend is not part of the program: its reply to a request is a parameter, as are the times at
-- which the loop asks. The fields of a request that the loop changes are the URL and the key.
pub mod First
pub mod Replaced
use caddy_esi.Prelude.{ℕ, ◌+◌, Bool, true, false, List, [], ◌∷◌, Option, none, some}
use caddy_esi.Prelude.Text.{Bytes}
use caddy_esi.EsiTag.Breaker.{
  Breaker, CbState, cb_state_open, cb_state_half_open, cb_state_closed, cb_state, cb_reset,
  cb_record_failure,
}

pub record Resource : Type 0 where
  pub index : ℕ
  pub url : Bytes
  pub breaker : Breaker

-- `ResourceArgs.URL` and `ResourceArgs.Tag.Key`.
pub record ResourceArgs : Type 0 where
  pub url : Bytes
  pub key : Bytes

-- What a backend returns: a content, an error that has the behaviour NotFound, or another error.
pub data Reply : Type 0 where
  content : Bytes → Reply
  not_found : Reply
  failure : Reply

-- What the surroundings do while resource number `i` is handled: the time at which its breaker is
-- asked, the reply, and the time at which a failure is recorded.
pub record Moment : Type 0 where
  pub asked_at : ℕ
  pub reply : ResourceArgs → Reply
  pub failed_at : ℕ

-- The result, with the resources and the arguments after it. `content` is `none` for the Temporary
-- error, and `errors` are the positions of the resources whose errors it collects.
pub record Queried : Type 0 where
  pub content : Option Bytes
  pub resources : List Resource
  pub args : ResourceArgs
  pub errors : List ℕ

-- The replacer of the request, `args.repl.Replace`.
module _ (replace : Bytes → Bytes) where
  -- The assignments of `Resource.DoRequest` to the arguments, which the resources share.
  abbrev pub prepare : Resource → ResourceArgs → ResourceArgs
  prepare r args = record { url = replace r.url; key = replace args.key }

abbrev pub recorded : Resource → ℕ → Resource
recorded r t = record r { breaker = (cb_record_failure r.breaker t).0 }

abbrev pub reset : Resource → Resource
reset r = record r { breaker = cb_reset r.breaker }

-- The rest of the loop, behind a resource that gave no content.
abbrev pub go_on : Resource → Queried → Queried
go_on r q = record q { resources = r ∷ q.resources }

abbrev pub go_on_with_error : ℕ → Resource → Queried → Queried
go_on_with_error i r q = record q { resources = r ∷ q.resources; errors = i ∷ q.errors }

-- `if state == CBStateHalfOpen { r.CBReset() }`.
abbrev pub answered_in : CbState → Resource → Resource
answered_in cb_state_half_open r = reset r
answered_in _ r = r

-- The cases of the loop, for a reply; `rest` is the rest of the loop.
unfoldable pub heard :
    CbState → Moment → ℕ → Resource → List Resource → ResourceArgs → Reply → Queried → Queried
heard state m i r rs args (content d) rest = record {
  content = some d;
  resources = answered_in state r ∷ rs;
  args = args;
  errors = [];
}
heard state m i r rs args not_found rest = go_on r rest
heard state m i r rs args failure rest = go_on_with_error i (recorded r m.failed_at) rest

module _ (replace : Bytes → Bytes) (env : ℕ → Moment) where
  -- The loop from resource number `i` on.
  unfoldable pub query_from : ℕ → ResourceArgs → List Resource → Queried
  unfolding heard
  query_from i args [] = record { content = none; resources = []; args = args; errors = [] }
  query_from i args (r ∷ rs) =
      let m = env i in
      let args' = prepare replace r args in
      elim (cb_state r.breaker m.asked_at) [
        | cb_state_open ↦ go_on r (query_from (i + 1) args rs)
        | cb_state_half_open ↦
            heard cb_state_half_open m i r rs args' (m.reply args') (query_from (i + 1) args' rs)
        | cb_state_closed ↦
            heard cb_state_closed m i r rs args' (m.reply args') (query_from (i + 1) args' rs)
      ]

  -- `QueryResources` for a tag with the given key: the URL of the arguments is empty at first.
  unfoldable pub query_resources : Bytes → List Resource → Queried
  unfolding query_from
  query_resources key rs = query_from 0 (record { url = []; key = key }) rs
