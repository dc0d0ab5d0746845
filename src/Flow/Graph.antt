-- ===== src/Flow/Graph.antt =====
-- The nodes of a flow graph (src/web/js/azkaban.ajax.utils.js, src/web/js/azkaban.flow.execute.view.js).
-- A node's `in`, `out`, `inNodes` and `outNodes` are objects from job ids to nodes. The code that
-- is modelled enumerates their keys and never reads their values, so each is the list of its keys;
-- `none` is a property that is not set.
use azkaban.Prelude.{String, List, [], Option, none, some}

pub record JobNode : Type 0 where
  pub id : String
  pub status : String
  pub in_keys : Option (List String)
  pub out_keys : Option (List String)
  pub in_nodes : Option (List String)
  pub out_nodes : Option (List String)

abbrev pub NodeMap : Type 0
NodeMap = List (String × JobNode)

-- The keys that `if (o) { for (var key in o) … }` visits.
abbrev pub keys_of : Option (List String) → List String
keys_of none = []
keys_of (some ks) = ks

-- What running a handler gives: the object that it changes in place, after the call returned, after
-- it raised a TypeError, or when the recursion is deeper than the given stack.
pub data Outcome {ℓ} (S : Type ℓ) : Type ℓ where
  ok : S → Outcome S
  type_error : S → Outcome S
  stack_overflow : S → Outcome S

infixl 5 ◌>>=◌
abbrev pub ◌>>=◌ {ℓ} : {S : Type ℓ} → Outcome S → (S → Outcome S) → Outcome S
ok s >>= f = f s
type_error s >>= f = type_error s
stack_overflow s >>= f = stack_overflow s
