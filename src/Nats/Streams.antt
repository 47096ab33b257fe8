-- ===== src/Nats/Streams.antt =====
-- src/pkg/nats/connection.go: the streams that agents ensure.
use navier_stocks.Base.{◌≡◌, refl, inl, inr, Option, none, String, Bool-cases, arith}
use navier_stocks.Base.Text.{is_empty}
use navier_stocks.Nats.{StreamConfig, Info, known, not_found, no_info, after_info, ensure_stream}

module _ {S : Type 0} (info : S → String → Info) (add : StreamConfig → S → Option String × S) where
  -- The server knows a stream that it was asked to add, unless it answered with an error.
  pub record Remembers : Type 0 where
    pub knows :
        (cfg : StreamConfig) (s : S) → (add cfg s).0 ≡ none → info (add cfg s).1 cfg.name ≡ known

  after_info-known :
      (memory : Remembers) (cfg : StreamConfig) (answer : Info) (s : S)
      → info s cfg.name ≡ answer
      → (after_info info add cfg answer s).0 ≡ none
      → info (after_info info add cfg answer s).1 cfg.name ≡ known
  after_info-known memory cfg known s e fine = e
  after_info-known memory cfg (no_info message) s e fine = absurd (ground (arith, fine))
  after_info-known memory cfg not_found s e fine = memory.knows cfg s (ground (arith, fine))

  -- Once `EnsureStream` succeeds, to call it again succeeds and changes nothing on the server.
  pub ensure_stream-twice :
      (memory : Remembers) (cfg : StreamConfig) (s : S)
      → (ensure_stream info add cfg s).0 ≡ none
      → ensure_stream info add cfg (ensure_stream info add cfg s).1
        ≡ (none, (ensure_stream info add cfg s).1)
  unfolding ensure_stream
  ensure_stream-twice memory cfg s fine = elim (Bool-cases (is_empty cfg.name)) [
    | inl unnamed ↦ absurd (ground (arith, fine, unnamed))
    | inr named ↦
        let first : (after_info info add cfg (info s cfg.name) s).0 ≡ none = simp named at fine in
        simp (named, after_info-known memory cfg (info s cfg.name) s refl first) refl
  ]
