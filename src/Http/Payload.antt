-- ===== src/Http/Payload.antt =====
-- internal/httpapi/handlers.go: the bodies of a sequence of history requests. `cachedHistory` asks the
-- collector for its generation and for its history by two calls, between which a tick may come, and a
-- restored history does not move the generation; so a request has both as it would read them.
use pi_monitor.Prelude.{
  ℕ, ◌≡◌, refl, sym, ap, ◌∙◌, true, false, ◌⊎◌, inl, inr, List, [], ◌∷◌, Among, Option, none,
  Bool-cases, Option-cases, ◌==◌, ==_iff,
}
use pi_monitor.Prelude.Int.{ℤ}
use pi_monitor.Prelude.Bytes.{Bytes}
use pi_monitor.Persist.Types.{History}
use pi_monitor.Collector.Import.{is_zero, since}
use pi_monitor.Http.Cache.{HistoryCache, refresh, encode_full, cached_history, history_payload}

-- A request: the generation and the history that the collector returns to it, and its `since`.
pub record HistoryRequest (V : Type 0) : Type 0 where
  pub gen : ℕ
  pub current : History V
  pub start : ℤ

module _ {V : Type 0} (marshal : History V → Option Bytes) where
  -- The bodies of the requests, one after another.
  unfoldable pub serve_history : List (HistoryRequest V) → HistoryCache V → List (Option Bytes)
  serve_history [] c = []
  serve_history (q ∷ qs) c =
      let (c', body) = history_payload marshal q.gen q.current q.start c in
      body ∷ serve_history qs c'

  -- The body for `q` is the encoding of what `Since` keeps of the history that one of the requests
  -- seen was given at the generation of `q`.
  abbrev pub IsAnswer : List (HistoryRequest V) → HistoryRequest V → Option Bytes → Type 0
  IsAnswer seen q body =
      (s : HistoryRequest V) × Among s seen
      × (s.gen ≡ q.gen)
      × (body ≡ marshal (since s.current q.start))

  abbrev pub Answered :
      List (HistoryRequest V) → List (HistoryRequest V) → List (Option Bytes) → Type 0
  Answered seen [] [] = Unit
  Answered seen (q ∷ qs) (body ∷ bodies) =
      IsAnswer (q ∷ seen) q body × Answered (q ∷ seen) qs bodies
  Answered seen [] (body ∷ bodies) = ⊥
  Answered seen (q ∷ qs) [] = ⊥

  -- The cache holds what the request `s` was given, and no encoding but that one's.
  abbrev Current : HistoryRequest V → HistoryCache V → Type 0
  Current s c =
      (c.content ≡ s.current) × (c.gen ≡ s.gen) × ((c.json ≡ none) ⊎ (c.json ≡ marshal c.content))

  abbrev Coherent : List (HistoryRequest V) → HistoryCache V → Type 0
  Coherent seen c = (c.valid ≡ false) ⊎ ((s : HistoryRequest V) × Among s seen × Current s c)

  refresh-Current :
      (seen : List (HistoryRequest V)) (q : HistoryRequest V) (c : HistoryCache V)
      → Coherent seen c
      → (s : HistoryRequest V) × Among s (q ∷ seen)
        × (s.gen ≡ q.gen)
        × Current s (refresh marshal q.gen q.current c)
  unfolding refresh
  refresh-Current seen q c h = elim (Bool-cases c.valid) [
    | inr v ↦ (q, inl refl, refl, rw (refresh, v) (refl, refl, inl refl))
    | inl v ↦ elim (Bool-cases (c.gen == q.gen)) [
      | inr e ↦ (q, inl refl, refl, rw (refresh, v, e) (refl, refl, inl refl))
      | inl e ↦ elim h [
        | inl n ↦ absurd (cc (sym v ∙ n))
        | inr (s, there, k) ↦
            (s, inr there, sym k.1 ∙ (==_iff c.gen q.gen).0 e, rw (refresh, v, e) k)
      ]
    ]
  ]

  encode_full-Current :
      (s : HistoryRequest V) (c : HistoryCache V)
      → Current s c
      → Current s (encode_full marshal c) × ((encode_full marshal c).json ≡ marshal s.current)
  unfolding encode_full
  encode_full-Current s c h = elim (Option-cases c.json) [
    | inr (bytes, e) ↦
        rw (encode_full, e)
          (elim (h.2) [
            | inl n ↦ absurd (cc (sym e ∙ n))
            | inr m ↦ ((h.0, h.1, inr m), m ∙ ap marshal (h.0))
          ])
    | inl e ↦ elim (Option-cases (marshal c.content)) [
      | inl n ↦ rw (encode_full, e, n) ((h.0, h.1, inl e), e ∙ sym n ∙ ap marshal (h.0))
      | inr (bytes, n) ↦ rw (encode_full, e, n) ((h.0, h.1, inr (sym n)), sym n ∙ ap marshal (h.0))
    ]
  ]

  since-zero : (h : History V) (t : ℤ) → is_zero t ≡ true → since h t ≡ h
  unfolding since
  since-zero h t z = rw (since, z)

  -- One request: its body, and the cache behind it.
  history_payload-IsAnswer :
      (seen : List (HistoryRequest V)) (q : HistoryRequest V) (c : HistoryCache V)
      → Coherent seen c
      → IsAnswer (q ∷ seen) q (history_payload marshal q.gen q.current q.start c).1
        × Coherent (q ∷ seen) (history_payload marshal q.gen q.current q.start c).0
  unfolding history_payload cached_history
  history_payload-IsAnswer seen q c h =
      let r = refresh marshal q.gen q.current c in
      let (s, there, same, fresh) = refresh-Current seen q c h in
      elim (Bool-cases (is_zero q.start)) [
        | inl z ↦
            let (full, body) = encode_full-Current s r fresh in
            rw (history_payload, z)
              (
                (s, there, same, body ∙ ap marshal (sym (since-zero s.current q.start z))),
                inr (s, there, full),
              )
        | inr z ↦
            rw (history_payload, z)
              ((s, there, same, ap (λ h. marshal (since h q.start)) fresh.0), inr (s, there, fresh))
      ]

  serve_history-from :
      (seen qs : List (HistoryRequest V)) (c : HistoryCache V)
      → Coherent seen c
      → Answered seen qs (serve_history qs c)
  unfolding serve_history
  serve_history-from seen [] c h = tt
  serve_history-from seen (q ∷ qs) c h =
      let (answer, next) = history_payload-IsAnswer seen q c h in
      (answer, serve_history-from (q ∷ seen) qs _ next)

  -- From an empty cache, every history request of a sequence is answered with the encoding of what
  -- `Since` keeps of a history that the collector returned to a request of the same generation, to this
  -- one or to one before it in the sequence; never with one of another generation, nor with the body
  -- for another `since`. That holds also where encodings fail.
  pub serve_history-Answered :
      (qs : List (HistoryRequest V)) (c : HistoryCache V)
      → c.valid ≡ false
      → Answered [] qs (serve_history qs c)
  serve_history-Answered qs c empty = serve_history-from [] qs c (inl empty)
