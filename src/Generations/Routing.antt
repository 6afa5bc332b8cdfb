-- ===== src/Generations/Routing.antt =====
-- Which of the worker and its static assets answers a request: src/generation.ts, with the two functions of
-- src/bindings/static-assets.ts that it asks. The worker, the assets and the server's upgrade are parameters.
use lopata.Common.{
  ℕ, Bool, true, false, not, ◌&&◌, ◌||◌, Option, none, some, List, [], ◌∷◌, ◌++◌, any, ◌==◌,
  if◌then◌else◌, Text, codes, text_eq, starts_with, ends_with, drop_last,
}

pub record Request : Type 0 where
  pub method : Text
  pub pathname : Text
  -- The header `upgrade` is `websocket`.
  pub web_socket_upgrade : Bool

pub record Response : Type 0 where
  pub status : ℕ
  -- A `CFWebSocket` comes with it.
  pub web_socket : Bool

unfoldable pub can_serve_assets : Request → Bool
can_serve_assets request =
    (text_eq request.method (codes "GET") || text_eq request.method (codes "HEAD"))
    && not request.web_socket_upgrade

unfoldable pub assets_only_rejection : Request → Option Response
unfolding can_serve_assets
assets_only_rejection request =
    if can_serve_assets request
    then none
    else if request.web_socket_upgrade
    then some (record { status = 400; web_socket = false })
    else some (record { status = 405; web_socket = false })

-- `run_worker_first` of the configuration.
pub data RunWorkerFirst : Type 0 where
  unset : RunWorkerFirst
  flag : Bool → RunWorkerFirst
  patterns : List Text → RunWorkerFirst

abbrev pub names_path : Text → Text → Bool
names_path pathname pattern =
    text_eq pattern pathname
    || (ends_with pattern (codes "/*")
        && (starts_with pathname (drop_last 1 pattern) || text_eq pathname (drop_last 2 pattern)))

unfoldable pub should_run_worker_first : RunWorkerFirst → Text → Bool
should_run_worker_first unset pathname = false
should_run_worker_first (flag b) pathname = b
should_run_worker_first (patterns ps) pathname = any (names_path pathname) ps

-- What a generation has to answer with. A call that throws gives none.
pub record Handlers : Type 0 where
  pub executor : Option (Request → Option Response)
  pub static_assets : Option (Request → Option Response)
  pub run_worker_first : RunWorkerFirst
  pub upgrade : Request → Bool

pub data FetchCall : Type 0 where
  worker_fetch assets_fetch cancel_body server_upgrade close_socket : FetchCall

-- A response, a connection that was upgraded, the error page, or a promise that rejects: the promise of
-- the assets is returned without being awaited in two places, and no `catch` sees it there.
pub data Answer : Type 0 where
  served : Response → Answer
  upgraded error_page rejected : Answer

abbrev pub plain_error : Response
plain_error = record { status = 500; web_socket = false }

-- The end of `_dispatchFetch`, for what the worker gave.
abbrev pub respond : Handlers → Request → List FetchCall → Option Response → List FetchCall × Answer
respond h request calls none = (calls, error_page)
respond h request calls (some response) =
    if response.status == 101 && response.web_socket
    then if h.upgrade request
      then (calls ++ (server_upgrade ∷ []), upgraded)
      else (calls ++ (server_upgrade ∷ close_socket ∷ []), served plain_error)
    else (calls, served response)

abbrev pub returned : List FetchCall → Option Response → List FetchCall × Answer
returned calls none = (calls, rejected)
returned calls (some response) = (calls, served response)

abbrev pub assets_first :
    Handlers → Request → (execute fetch : Request → Option Response) → List FetchCall × Answer
assets_first h request execute fetch = elim (fetch request) [
  | none ↦ (assets_fetch ∷ [], error_page)
  | some response ↦
      if response.status == 404
      then respond h request (assets_fetch ∷ worker_fetch ∷ []) (execute request)
      else (assets_fetch ∷ [], served response)
]

abbrev pub worker_first :
    Handlers → Request → (execute fetch : Request → Option Response) → List FetchCall × Answer
worker_first h request execute fetch = elim (execute request) [
  | none ↦ (worker_fetch ∷ [], error_page)
  | some response ↦
      if response.status == 404 && can_serve_assets request
      then returned (worker_fetch ∷ cancel_body ∷ assets_fetch ∷ []) (fetch request)
      else respond h request (worker_fetch ∷ []) (some response)
]

abbrev pub assets_only : Request → Option (Request → Option Response) → List FetchCall × Answer
assets_only request none = ([], served plain_error)
assets_only request (some fetch) = elim (assets_only_rejection request) [
  | some rejection ↦ ([], served rejection)
  | none ↦ returned (assets_fetch ∷ []) (fetch request)
]

abbrev pub with_worker :
    Handlers
    → Request
    → (execute : Request → Option Response) → Option (Request → Option Response)
    → List FetchCall × Answer
with_worker h request execute none = respond h request (worker_fetch ∷ []) (execute request)
with_worker h request execute (some fetch) =
    if not (should_run_worker_first h.run_worker_first request.pathname) && can_serve_assets request
    then assets_first h request execute fetch
    else worker_first h request execute fetch

unfoldable pub dispatch_fetch : Handlers → Request → List FetchCall × Answer
unfolding can_serve_assets assets_only_rejection should_run_worker_first
dispatch_fetch h request = elim h.executor [
  | none ↦ assets_only request h.static_assets
  | some execute ↦ with_worker h request execute h.static_assets
]

abbrev pub is_call : FetchCall → FetchCall → Bool
is_call worker_fetch worker_fetch = true
is_call assets_fetch assets_fetch = true
is_call cancel_body cancel_body = true
is_call server_upgrade server_upgrade = true
is_call close_socket close_socket = true
is_call _ _ = false

abbrev pub has_call : FetchCall → List FetchCall → Bool
has_call c calls = any (is_call c) calls
