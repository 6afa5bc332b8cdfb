-- ===== src/Generations/Dispatch.antt =====
-- Who answers a request in src/generation.ts, stated without the order of its tests.
use lopata.Common.{
  ◌≡◌, refl, inl, inr, Bool, true, false, not, ◌&&◌, Option, none, some, List, [], ◌∷◌, ◌++◌,
  any-append, ◌==◌, ==_iff, if◌then◌else◌, arith, Bool-cases, Option-cases,
}
use lopata.Generations.Routing.{
  Request, Response, can_serve_assets, assets_only_rejection, should_run_worker_first, Handlers,
  FetchCall, worker_fetch, assets_fetch, server_upgrade, close_socket, error_page, rejected,
  respond, assets_first, worker_first, assets_only, with_worker, dispatch_fetch, is_call, has_call,
}

abbrev pub is_some_handler : Option (Request → Option Response) → Bool
is_some_handler none = false
is_some_handler (some f) = true

-- A response that says that there is nothing at the path.
abbrev pub is_missing : Option Response → Bool
is_missing none = false
is_missing (some response) = response.status == 404

-- What the server's upgrade adds to the calls is no call of the worker or of the assets.
appended-calls :
    (c : FetchCall) (calls extra : List FetchCall)
    → has_call c extra ≡ false
    → has_call c (calls ++ extra) ≡ has_call c calls
appended-calls c calls extra e =
    let joined = any-append (is_call c) calls extra in
    elim (Bool-cases (has_call c calls)) [ inl q ↦ ground arith | inr q ↦ ground arith ]

respond-calls :
    (c : FetchCall) (h : Handlers) (request : Request) (calls : List FetchCall)
    (r : Option Response)
    → has_call c (server_upgrade ∷ close_socket ∷ []) ≡ false
    → has_call c (respond h request calls r).0 ≡ has_call c calls
respond-calls c h request calls none e = refl
respond-calls c h request calls (some r) e = elim (Bool-cases (r.status == 101 && r.web_socket)) [
  | inr off ↦ rw off refl
  | inl on ↦ elim (Bool-cases (h.upgrade request)) [
    | inl u ↦ rw (on, u) (appended-calls c calls (server_upgrade ∷ []) (ground arith))
    | inr u ↦ rw (on, u) (appended-calls c calls (server_upgrade ∷ close_socket ∷ []) e)
  ]
]

rejection-unservable :
    (request : Request)
    → can_serve_assets request ≡ false
    → (r : Response) × (assets_only_rejection request ≡ some r)
unfolding assets_only_rejection
rejection-unservable request u = elim (Bool-cases request.web_socket_upgrade) [
  | inl w ↦ (record { status = 400; web_socket = false }, rw (assets_only_rejection, u, w) refl)
  | inr w ↦ (record { status = 405; web_socket = false }, rw (assets_only_rejection, u, w) refl)
]

worker_first-unservable :
    (h : Handlers) (request : Request) (execute fetch : Request → Option Response)
    → can_serve_assets request ≡ false
    → (has_call assets_fetch (worker_first h request execute fetch).0 ≡ false)
      × (has_call worker_fetch (worker_first h request execute fetch).0 ≡ true)
worker_first-unservable h request execute fetch u = elim (Option-cases (execute request)) [
  | inl e ↦ rw (worker_first, e) (refl, refl)
  | inr (r, e) ↦
      let off : (r.status == 404 && can_serve_assets request) ≡ false = ground arith in
      rw (worker_first, e, off)
        (
          respond-calls assets_fetch h request (worker_fetch ∷ []) (some r) refl,
          respond-calls worker_fetch h request (worker_fetch ∷ []) (some r) refl,
        )
]

-- A request that assets must not answer, a write or an upgrade, never reaches them, and reaches the worker
-- whenever there is one.
pub unservable_request :
    (h : Handlers) (request : Request)
    → can_serve_assets request ≡ false
    → (has_call assets_fetch (dispatch_fetch h request).0 ≡ false)
      × (has_call worker_fetch (dispatch_fetch h request).0 ≡ is_some_handler h.executor)
unfolding dispatch_fetch
unservable_request h request u = elim (Option-cases h.executor) [
  | inl e ↦ elim (Option-cases h.static_assets) [
    | inl s ↦ rw (dispatch_fetch, e, s) (refl, refl)
    | inr (fetch, s) ↦
        let (r, rejects) = rejection-unservable request u in
        rw (dispatch_fetch, e, s, assets_only, rejects) (refl, refl)
  ]
  | inr (execute, e) ↦ elim (Option-cases h.static_assets) [
    | inl s ↦
        rw (dispatch_fetch, e, s)
          (
            respond-calls assets_fetch h request (worker_fetch ∷ []) (execute request) refl,
            respond-calls worker_fetch h request (worker_fetch ∷ []) (execute request) refl,
          )
    | inr (fetch, s) ↦
        let off : (not (should_run_worker_first h.run_worker_first request.pathname)
              && can_serve_assets request)
            ≡ false =
          ground arith in
        rw (dispatch_fetch, e, s, with_worker, off)
          (worker_first-unservable h request execute fetch u)
  ]
]

-- Who is called first by `run_worker_first`, who second, and what the first one answers.
abbrev pub runs_first : Handlers → Request → Bool
runs_first h request = should_run_worker_first h.run_worker_first request.pathname

abbrev pub first_call : Bool → FetchCall
first_call worker = if worker then worker_fetch else assets_fetch

worker_first-calls :
    (h : Handlers) (request : Request) (execute fetch : Request → Option Response)
    → can_serve_assets request ≡ true
    → (has_call worker_fetch (worker_first h request execute fetch).0 ≡ true)
      × (has_call assets_fetch (worker_first h request execute fetch).0
          ≡ is_missing (execute request))
worker_first-calls h request execute fetch v = elim (Option-cases (execute request)) [
  | inl q ↦ rw (worker_first, q) (refl, refl)
  | inr (r, q) ↦ elim (Bool-cases (r.status == 404)) [
    | inr off ↦
        rw (worker_first, q, off)
          (
            respond-calls worker_fetch h request (worker_fetch ∷ []) (some r) refl,
            respond-calls assets_fetch h request (worker_fetch ∷ []) (some r) refl,
          )
    | inl on ↦ elim (Option-cases (fetch request)) [
      | inl f ↦ rw (worker_first, q, on, v, f) (refl, refl)
      | inr (a, f) ↦ rw (worker_first, q, on, v, f) (refl, refl)
    ]
  ]
]

assets_first-calls :
    (h : Handlers) (request : Request) (execute fetch : Request → Option Response)
    → (has_call assets_fetch (assets_first h request execute fetch).0 ≡ true)
      × (has_call worker_fetch (assets_first h request execute fetch).0
          ≡ is_missing (fetch request))
assets_first-calls h request execute fetch = elim (Option-cases (fetch request)) [
  | inl q ↦ rw (assets_first, q) (refl, refl)
  | inr (r, q) ↦ elim (Bool-cases (r.status == 404)) [
    | inr off ↦ rw (assets_first, q, off) (refl, refl)
    | inl on ↦
        rw (assets_first, q, on)
          (
            respond-calls assets_fetch h request (assets_fetch ∷ worker_fetch ∷ [])
                (execute request) refl,
            respond-calls worker_fetch h request (assets_fetch ∷ worker_fetch ∷ [])
                (execute request) refl,
          )
  ]
]

-- With a worker and assets that may answer the request, the one that `run_worker_first` names is called,
-- and the other one exactly when the first answers 404.
pub fallback_order :
    (h : Handlers) (request : Request) (execute fetch : Request → Option Response)
    → h.executor ≡ some execute
    → h.static_assets ≡ some fetch
    → can_serve_assets request ≡ true
    → (has_call (first_call (runs_first h request)) (dispatch_fetch h request).0 ≡ true)
      × (has_call (first_call (not (runs_first h request))) (dispatch_fetch h request).0
          ≡ is_missing (if runs_first h request then execute request else fetch request))
unfolding dispatch_fetch
fallback_order h request execute fetch e s v = elim (Bool-cases (runs_first h request)) [
  | inl w ↦ rw (dispatch_fetch, e, s, with_worker, w) (worker_first-calls h request execute fetch v)
  | inr w ↦
      rw (dispatch_fetch, e, s, with_worker, w, v) (assets_first-calls h request execute fetch)
]

-- Where the assets throw, an error page is served if they come first; if they are the fallback of a worker
-- that answered 404, the promise of the dispatch rejects.
pub failing_assets :
    (h : Handlers) (request : Request) (execute fetch : Request → Option Response)
    (missing : Response)
    → h.executor ≡ some execute
    → h.static_assets ≡ some fetch
    → can_serve_assets request ≡ true
    → fetch request ≡ none
    → execute request ≡ some missing
    → missing.status ≡ 404
    → (dispatch_fetch h request).1 ≡ (if runs_first h request then rejected else error_page)
unfolding dispatch_fetch
failing_assets h request execute fetch missing e s v f q m =
    let found = (==_iff missing.status 404).1 m in
    elim (Bool-cases (runs_first h request)) [
      | inl w ↦ rw (dispatch_fetch, e, s, with_worker, w, worker_first, q, found, v, f) refl
      | inr w ↦ rw (dispatch_fetch, e, s, with_worker, w, v, assets_first, f) refl
    ]
