-- ===== src/Scraper/Fetch.antt =====
-- internal/scraper/azure.go and gcp.go: requests with retries, and lists read page by page. What a
-- request meets is an `Exchange`, by the number of the attempt; whether a pause ends before the
-- context is cancelled is a Boolean.
pub mod Attempts
pub mod Pages
use c3x_pricing_api.Base.{
  ℕ, zero, suc, ◌-◌, String, List, [], ◌∷◌, Option, none, some, Bool, true, false, not, ◌||◌, ◌&&◌,
  leb, ltb, ◌==◌, str_eq, if◌then◌else◌,
}

-- What one attempt gives; the flag is that of retryableError.
pub data Attempt (A : Type 0) : Type 0 where
  done : A → Attempt A
  failed : Bool → Attempt A

-- What the retries come to; `refused` has the number of the attempt whose error is returned.
pub data Fetched (A : Type 0) : Type 0 where
  fetched : A → Fetched A
  refused : ℕ → Fetched A
  cancelled exhausted : Fetched A

module _ {A : Type 0} where
  -- The loop from an attempt on, with the rounds that are left.
  unfoldable pub retry_from : ℕ → (ℕ → Attempt A) → (ℕ → Bool) → ℕ → ℕ → Fetched A
  retry_from max_retries fn sleep attempt zero = exhausted
  retry_from max_retries fn sleep attempt (suc left) = elim (fn attempt) [
    | done result ↦ fetched result
    | failed retryable ↦ elim (not retryable || leb (max_retries - 1) attempt) [
      | true ↦ refused attempt
      | false ↦ elim (sleep attempt) [
        | true ↦ retry_from max_retries fn sleep (suc attempt) left
        | false ↦ cancelled
      ]
    ]
  ]

  unfoldable pub retry_with_backoff : ℕ → (ℕ → Attempt A) → (ℕ → Bool) → Fetched A
  retry_with_backoff max_retries fn sleep = retry_from max_retries fn sleep 0 max_retries

-- The body of an answer: unreadable, not beginning with `{`, no JSON of the type, or a page.
pub data Body (A : Type 0) : Type 0 where
  unreadable not_json undecodable : Body A
  page : A → Body A

pub data Exchange (A : Type 0) : Type 0 where
  bad_request no_answer : Exchange A
  answer : ℕ → Body A → Exchange A

module _ {A : Type 0} where
  unfoldable pub azure_body : Body A → Attempt A
  azure_body unreadable = failed false
  azure_body not_json = failed true
  azure_body undecodable = failed true
  azure_body (page p) = done p

  unfoldable pub azure_attempt : Exchange A → Attempt A
  azure_attempt bad_request = failed false
  azure_attempt no_answer = failed true
  azure_attempt (answer status body) = if status == 200 then azure_body body else failed true

  -- The token bucket after the page.
  unfoldable pub wait : Bool → Fetched A → Fetched A
  wait in_time (fetched p) = if in_time then fetched p else cancelled
  wait in_time (refused n) = refused n
  wait in_time cancelled = cancelled
  wait in_time exhausted = exhausted

  unfoldable pub fetch_page : (ℕ → Exchange A) → (ℕ → Bool) → Bool → Fetched A
  fetch_page exchange sleep in_time =
      wait in_time (retry_with_backoff 5 (λ n. azure_attempt (exchange n)) sleep)

  unfoldable pub decoded : ℕ → Body A → Fetched A
  decoded attempt (page p) = fetched p
  decoded attempt unreadable = refused attempt
  decoded attempt not_json = refused attempt
  decoded attempt undecodable = refused attempt

  -- The loop of fetchGCPPage.
  unfoldable pub gcp_from : (ℕ → Exchange A) → (ℕ → Bool) → ℕ → ℕ → Fetched A
  gcp_from exchange sleep attempt zero = exhausted
  gcp_from exchange sleep attempt (suc left) = elim (exchange attempt) [
    | bad_request ↦ refused attempt
    | no_answer ↦ elim (ltb attempt 2) [
      | true ↦ elim (sleep attempt) [
        | true ↦ gcp_from exchange sleep (suc attempt) left
        | false ↦ cancelled
      ]
      | false ↦ refused attempt
    ]
    | answer status body ↦ elim (status == 200) [
      | true ↦ decoded attempt body
      | false ↦ elim (ltb attempt 2 && (status == 429 || leb 500 status)) [
        | true ↦ elim (sleep attempt) [
          | true ↦ gcp_from exchange sleep (suc attempt) left
          | false ↦ cancelled
        ]
        | false ↦ refused attempt
      ]
    ]
  ]

  unfoldable pub fetch_gcp_page : (ℕ → Exchange A) → (ℕ → Bool) → Fetched A
  fetch_gcp_page exchange sleep = gcp_from exchange sleep 0 3

pub record Page (A : Type 0) : Type 0 where
  pub items : List A
  -- NextPageLink or nextPageToken
  pub next : String

module _ {A S : Type 0} where
  unfoldable pub fold_items : (A → S → S) → List A → S → S
  fold_items step [] s = s
  fold_items step (x ∷ xs) s = fold_items step xs (step x s)

  -- The loop of scrapeService over the pages from the n-th on; none if the fuel ends before the
  -- pages do.
  unfoldable pub read_pages : (ℕ → Fetched (Page A)) → (A → S → S) → ℕ → ℕ → S → Option (Fetched S)
  read_pages fetch step zero n s = none
  read_pages fetch step (suc fuel) n s = elim (fetch n) [
    | refused k ↦ some (refused k)
    | cancelled ↦ some cancelled
    | exhausted ↦ some exhausted
    | fetched p ↦ elim (str_eq p.next "") [
      | true ↦ some (fetched (fold_items step p.items s))
      | false ↦ read_pages fetch step fuel (suc n) (fold_items step p.items s)
    ]
  ]
