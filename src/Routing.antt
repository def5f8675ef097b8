-- ===== src/Routing.antt =====
-- crates/pavis-core/src/runtime/routing.rs: virtual hosts, routes and what a route asks of a request;
-- RegexLimits of crates/pavis-core/src/runtime/policy.rs.
-- The fields of a route that only the later stages of a request read (timeout, retry, header
-- policies, rewrite and principal) are left out.
use pavis.Prelude.{ℕ, List}
use pavis.Prelude.Text.{Text}
use pavis.Http.{HttpMethod}

pub data PathMatch : Type 0 where
  prefix exact regex : (path : Text) → PathMatch

pub data MethodPredicate : Type 0 where
  any : MethodPredicate
  specific : HttpMethod → MethodPredicate
  list : List HttpMethod → MethodPredicate

pub data HeaderMatch : Type 0 where
  present : HeaderMatch
  exact prefix regex : Text → HeaderMatch
  absent : HeaderMatch

pub record HeaderPredicate : Type 0 where
  pub name : Text
  pub matcher : HeaderMatch

pub data HeaderPredicates : Type 0 where
  none : HeaderPredicates
  some : List HeaderPredicate → HeaderPredicates

pub record RouteMatcher : Type 0 where
  pub path : PathMatch
  pub method : MethodPredicate
  pub headers : HeaderPredicates

pub record Destination : Type 0 where
  pub upstream : Text
  pub weight : ℕ

pub data RouteAction : Type 0 where
  forward : List Destination → RouteAction
  redirect : (status : ℕ) (location : Text) → RouteAction
  direct : (status : ℕ) (body : Text) → RouteAction

pub record Route : Type 0 where
  pub matcher : RouteMatcher
  pub action : RouteAction

pub record VirtualHost : Type 0 where
  pub host : Text
  pub paths : List Route

pub record RegexLimits : Type 0 where
  pub pattern_max_bytes : ℕ
  pub size_limit_bytes : ℕ
  pub input_max_bytes : ℕ
  pub max_regex_per_route : ℕ
  pub max_regex_per_config : ℕ
