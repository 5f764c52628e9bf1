-- ===== src/Scraper/Fetch/Attempts.antt =====
-- When the retries give a result.
use native.Mathlib.Decide.{dec_lt, ℕ_discrete}
use c3x_pricing_api.Base.{
  ℕ, zero, suc, ◌+◌, ◌-◌, ◌==◌, ◌<◌, ◌≤◌, ◌≡◌, ◌↔◌, refl, Bool, true, false, ◌||◌, leb, arith,
  Bool-cases, inl, inr, ◌⊎◌, sym, subst, ◌∙◌, if◌then◌else◌,
}
use c3x_pricing_api.Scraper.Fetch.{
  Attempt, done, failed, fetched, refused, cancelled, retry_from, retry_with_backoff, Exchange,
  gcp_from, fetch_gcp_page, decoded, Body, page, unreadable, not_json, undecodable, bad_request,
  no_answer, answer,
}

module _ {A : Type 0} where
  -- Every attempt from one to another failed in a way that allows a retry, and the pause after it
  -- ended in time.
  abbrev pub AreRetried : (ℕ → Attempt A) → (ℕ → Bool) → ℕ → ℕ → Type 0
  AreRetried fn sleep first last =
      (j : ℕ) → first ≤ j → j < last → (fn j ≡ failed true) × (sleep j ≡ true)

  abbrev pub Succeeds : (ℕ → Attempt A) → (ℕ → Bool) → ℕ → ℕ → A → Type 0
  Succeeds fn sleep first last result =
      (k : ℕ) × (first ≤ k) × (k < last) × (fn k ≡ done result) × AreRetried fn sleep first k

  Attempt-cases :
      (a : Attempt A) → ((r : A) × (a ≡ done r)) ⊎ (a ≡ failed true) ⊎ (a ≡ failed false)
  Attempt-cases (done r) = inl (r, refl)
  Attempt-cases (failed true) = inr (inl refl)
  Attempt-cases (failed false) = inr (inr refl)

  module _ (max : ℕ) (fn : ℕ → Attempt A) (sleep : ℕ → Bool) where
    -- One round of the loop.
    retry_from-done :
        (attempt left : ℕ) (r : A)
        → fn attempt ≡ done r
        → retry_from max fn sleep attempt (suc left) ≡ fetched r
    unfolding retry_from
    retry_from-done attempt left r e = ground (arith, e)

    retry_from-refused :
        (attempt left : ℕ)
        → (fn attempt ≡ failed false) ⊎ ((fn attempt ≡ failed true) × (max - 1 ≤ attempt))
        → retry_from max fn sleep attempt (suc left) ≡ refused attempt
    unfolding retry_from
    retry_from-refused attempt left (inl e) = ground (arith, e)
    retry_from-refused attempt left (inr (e, h)) = ground (arith, e)

    retry_from-again :
        (attempt left : ℕ)
        → fn attempt ≡ failed true
        → attempt < max - 1
        → retry_from max fn sleep attempt (suc left)
          ≡ (if sleep attempt then retry_from max fn sleep (suc attempt) left else cancelled)
    unfolding retry_from
    retry_from-again attempt left e h = ground (arith, e)

    AreRetried-extend :
        (first last : ℕ)
        → fn first ≡ failed true
        → sleep first ≡ true
        → AreRetried fn sleep (suc first) last
        → AreRetried fn sleep first last
    AreRetried-extend first last e s h j le lt = elim (ℕ_discrete first j) [
      | yes same ↦ subst (λ i. (fn i ≡ failed true) × (sleep i ≡ true)) same (e, s)
      | no other ↦ h j (omega (arith, other)) lt
    ]

    retry_from-Succeeds :
        (attempt left : ℕ) (result : A)
        → retry_from max fn sleep attempt left ≡ fetched result
        → Succeeds fn sleep attempt (attempt + left) result
    retry_from-Succeeds attempt zero result h = unfold retry_from in cc
    retry_from-Succeeds attempt (suc left) result h = elim (Attempt-cases (fn attempt)) [
      | inl (r, e) ↦ (
        attempt,
        omega arith,
        omega arith,
        cc (h, e, retry_from-done attempt left r e),
        (λ j le lt. absurd (omega arith)),
      )
      | inr (inr e) ↦ cc (h, retry_from-refused attempt left (inl e))
      | inr (inl e) ↦ elim (dec_lt attempt (max - 1)) [
        | no late ↦ cc (h, retry_from-refused attempt left (inr (e, omega (arith, late))))
        | yes early ↦ elim (Bool-cases (sleep attempt)) [
          | inr s ↦ cc (h, rw s at (retry_from-again attempt left e early))
          | inl s ↦
              let (k, le, lt, ok, before) =
                retry_from-Succeeds (suc attempt) left result
                  (sym (rw s at (retry_from-again attempt left e early)) ∙ h) in
              (k, omega arith, omega arith, ok, AreRetried-extend attempt k e s before)
        ]
      ]
    ]

    Succeeds-retry_from :
        (attempt left : ℕ) (result : A)
        → attempt + left ≡ max
        → Succeeds fn sleep attempt max result
        → retry_from max fn sleep attempt left ≡ fetched result
    Succeeds-retry_from attempt zero result sum (k, le, lt, _, _) = absurd (omega arith)
    Succeeds-retry_from attempt (suc left) result sum (k, le, lt, ok, before) =
        elim (ℕ_discrete attempt k) [
          | yes same ↦ retry_from-done attempt left result (rw same ok)
          | no other ↦
              let (e, s) = before attempt (omega arith) (omega (arith, other)) in
              rw s at (retry_from-again attempt left e (omega (arith, other)))
              ∙ Succeeds-retry_from (suc attempt) left result (omega arith)
                  (k, omega (arith, other), lt, ok, (λ j h. before j (omega arith)))
        ]

    -- The retries give a result exactly when one of the allowed attempts gives it, and all before
    -- it failed in a way that allows a retry and were followed by a pause that was not cut short.
    pub retry_with_backoff_iff :
        (result : A)
        → (retry_with_backoff max fn sleep ≡ fetched result) ↔ Succeeds fn sleep 0 max result
    unfolding retry_with_backoff
    retry_with_backoff_iff result = (
      (λ h.
          let (k, le, lt, ok, before) = retry_from-Succeeds 0 max result h in
          (k, le, omega arith, ok, before)),
      Succeeds-retry_from 0 max result (omega arith),
    )

  -- What an attempt of fetchGCPPage gives, by itself.
  abbrev pub gcp_body : Body A → Attempt A
  gcp_body (page p) = done p
  gcp_body unreadable = failed false
  gcp_body not_json = failed false
  gcp_body undecodable = failed false

  abbrev pub gcp_attempt : Exchange A → Attempt A
  gcp_attempt bad_request = failed false
  gcp_attempt no_answer = failed true
  gcp_attempt (answer status body) =
      if status == 200 then gcp_body body else failed (status == 429 || leb 500 status)

  Exchange-cases :
      (x : Exchange A)
      → (x ≡ bad_request)
        ⊎ (x ≡ no_answer)
        ⊎ ((status : ℕ) × (p : A) × (x ≡ answer status (page p)))
        ⊎ ((status : ℕ) × (body : Body A) × (x ≡ answer status body)
            × (gcp_body body ≡ failed false))
  Exchange-cases bad_request = inl refl
  Exchange-cases no_answer = inr (inl refl)
  Exchange-cases (answer s (page p)) = inr (inr (inl (s, p, refl)))
  Exchange-cases (answer s unreadable) = inr (inr (inr (s, unreadable, refl, refl)))
  Exchange-cases (answer s not_json) = inr (inr (inr (s, not_json, refl, refl)))
  Exchange-cases (answer s undecodable) = inr (inr (inr (s, undecodable, refl, refl)))

  broken : (n : ℕ) (body : Body A) → gcp_body body ≡ failed false → decoded n body ≡ refused n
  unfolding decoded
  broken n (page p) h = cc
  broken n unreadable h = refl
  broken n not_json h = refl
  broken n undecodable h = refl

  module _ (exchange : ℕ → Exchange A) (sleep : ℕ → Bool) where
    gcp_from-retry :
        (attempt left : ℕ)
        → gcp_from exchange sleep attempt left
          ≡ retry_from 3 (λ n. gcp_attempt (exchange n)) sleep attempt left
    unfolding gcp_from retry_from decoded
    gcp_from-retry attempt zero = refl
    gcp_from-retry attempt (suc left) = elim (Exchange-cases (exchange attempt)) [
      | inl e ↦ ground (arith, e)
      | inr (inl e) ↦ ground (arith, e, gcp_from-retry (suc attempt) left)
      | inr (inr (inl (status, p, e))) ↦ ground (arith, e, gcp_from-retry (suc attempt) left)
      | inr (inr (inr (status, body, e, bad))) ↦
          ground (arith, e, gcp_from-retry (suc attempt) left, bad, broken attempt body bad)
    ]

    -- The loop of fetchGCPPage is that of retryWithBackoff with three attempts, in which network
    -- errors, 429 and 5xx may be retried, and other statuses and undecodable bodies may not.
    pub fetch_gcp_page-retry :
        fetch_gcp_page exchange sleep ≡ retry_with_backoff 3 (λ n. gcp_attempt (exchange n)) sleep
    unfolding fetch_gcp_page retry_with_backoff
    fetch_gcp_page-retry = gcp_from-retry 0 3
