-- ===== src/Groww/Feed/Snapshots.antt =====
-- src/pkg/groww/feed.go: what the snapshots hold, and what the connector of the scout sees of them.
use navier_stocks.Base.{
  ◌≡◌, refl, ap, ◌∙◌, Bool, true, false, Option, none, some, List, [], ◌∷◌, if◌then◌else◌,
}
use navier_stocks.Base.Try.{Try, ok, err}
use navier_stocks.Groww.Types.{LtpData}
use navier_stocks.Groww.FeedTypes.{FeedMetadata, IndexData, MarketDepthData}
use navier_stocks.Groww.Feed.{
  Snapshot, Call, FeedMessage, FeedClient, handle_ltp, handle_depth, handle_index, dispatch,
  dispatch_all, consume,
}

-- The part of a message that was read, or what was there before.
abbrev pub read_or : {A : Type 0} → A → Option (Try A) → A
read_or old none = old
read_or old (some (err message)) = old
read_or old (some (ok parsed)) = parsed

module _ {F : Type 0} where
  -- The prices of the last message that has a readable `ltp` part, or `old`; the same for the other parts.
  unfoldable pub last_ltp :
      Snapshot (LtpData F) → List (Option (FeedMessage F)) → Snapshot (LtpData F)
  last_ltp old [] = old
  last_ltp old (none ∷ ms) = last_ltp old ms
  last_ltp old (some m ∷ ms) = last_ltp (read_or old m.ltp) ms

  unfoldable pub last_depth :
      Snapshot (MarketDepthData F) → List (Option (FeedMessage F)) → Snapshot (MarketDepthData F)
  last_depth old [] = old
  last_depth old (none ∷ ms) = last_depth old ms
  last_depth old (some m ∷ ms) = last_depth (read_or old m.depth) ms

  unfoldable pub last_index :
      Snapshot (IndexData F) → List (Option (FeedMessage F)) → Snapshot (IndexData F)
  last_index old [] = old
  last_index old (none ∷ ms) = last_index old ms
  last_index old (some m ∷ ms) = last_index (read_or old m.index) ms

  -- A client with these snapshots, whose connection and callbacks are those of another.
  pub record Holds (ltp : Snapshot (LtpData F)) (depth : Snapshot (MarketDepthData F))
      (index : Snapshot (IndexData F)) (f : FeedClient F) : Type 0 where
    pub prices : f.ltp ≡ ltp
    pub depths : f.depth ≡ depth
    pub indices : f.index ≡ index

  handle_ltp-Holds :
      (part : Option (Try (Snapshot (LtpData F)))) (meta : FeedMetadata) (cb : Bool)
      (f : FeedClient F)
      → Holds (read_or f.ltp part) f.depth f.index (handle_ltp part meta cb f)
  handle_ltp-Holds none meta cb f = record { prices = refl; depths = refl; indices = refl }
  handle_ltp-Holds (some (err m)) meta cb f = record {
    prices = refl;
    depths = refl;
    indices = refl;
  }
  handle_ltp-Holds (some (ok p)) meta cb f = record { prices = refl; depths = refl; indices = refl }

  handle_depth-Holds :
      (part : Option (Try (Snapshot (MarketDepthData F)))) (meta : FeedMetadata) (cb : Bool)
      (f : FeedClient F)
      → Holds f.ltp (read_or f.depth part) f.index (handle_depth part meta cb f)
  handle_depth-Holds none meta cb f = record { prices = refl; depths = refl; indices = refl }
  handle_depth-Holds (some (err m)) meta cb f = record {
    prices = refl;
    depths = refl;
    indices = refl;
  }
  handle_depth-Holds (some (ok p)) meta cb f = record {
    prices = refl;
    depths = refl;
    indices = refl;
  }

  handle_index-Holds :
      (part : Option (Try (Snapshot (IndexData F)))) (f : FeedClient F)
      → Holds f.ltp f.depth (read_or f.index part) (handle_index part f)
  handle_index-Holds none f = record { prices = refl; depths = refl; indices = refl }
  handle_index-Holds (some (err m)) f = record { prices = refl; depths = refl; indices = refl }
  handle_index-Holds (some (ok p)) f = record { prices = refl; depths = refl; indices = refl }

  handlers-Holds :
      (m : FeedMessage F) (ltp_cb depth_cb : Bool) (f : FeedClient F)
      → Holds (read_or f.ltp m.ltp) (read_or f.depth m.depth) (read_or f.index m.index) (
          handle_index m.index
            (handle_depth m.depth m.meta depth_cb (handle_ltp m.ltp m.meta ltp_cb f)))
  handlers-Holds m ltp_cb depth_cb f =
      let f1 = handle_ltp m.ltp m.meta ltp_cb f in
      let f2 = handle_depth m.depth m.meta depth_cb f1 in
      let first = handle_ltp-Holds m.ltp m.meta ltp_cb f in
      let second = handle_depth-Holds m.depth m.meta depth_cb f1 in
      let third = handle_index-Holds m.index f2 in
      record {
        prices = third.prices ∙ second.prices ∙ first.prices;
        depths = third.depths ∙ second.depths ∙ ap (λ old. read_or old m.depth) first.depths;
        indices = third.indices ∙ ap (λ old. read_or old m.index) (second.indices ∙ first.indices);
      }

  dispatch-Holds :
      (m : FeedMessage F) (f : FeedClient F)
      → Holds
          (read_or f.ltp m.ltp)
          (read_or f.depth m.depth)
          (read_or f.index m.index)
          (dispatch (some m) f)
  unfolding dispatch
  dispatch-Holds m f =
      let calls = if f.on_data_set then Call.on_data m.meta ∷ f.calls else f.calls in
      handlers-Holds m f.on_ltp_set f.on_depth_set (record f { calls = calls })

  dispatch_all-Holds :
      (ms : List (Option (FeedMessage F))) (f : FeedClient F)
      → Holds
          (last_ltp f.ltp ms)
          (last_depth f.depth ms)
          (last_index f.index ms)
          (dispatch_all ms f)
  unfolding dispatch_all last_ltp last_depth last_index
  dispatch_all-Holds [] f = record { prices = refl; depths = refl; indices = refl }
  dispatch_all-Holds (none ∷ ms) f = dispatch_all-Holds ms f
  dispatch_all-Holds (some m ∷ ms) f =
      let one = dispatch-Holds m f in
      let rest = dispatch_all-Holds ms (dispatch (some m) f) in
      record {
        prices = rest.prices ∙ ap (λ old. last_ltp old ms) one.prices;
        depths = rest.depths ∙ ap (λ old. last_depth old ms) one.depths;
        indices = rest.indices ∙ ap (λ old. last_index old ms) one.indices;
      }

  -- When `Consume` of a connected client returns, each snapshot is that part of the last message that has
  -- it in readable form, and nothing of the messages before it; without such a message it is as before.
  pub consume-Holds :
      (ms : List (Option (FeedMessage F))) (f : FeedClient F)
      → f.has_conn ≡ true
      → Holds (last_ltp f.ltp ms) (last_depth f.depth ms) (last_index f.index ms) (consume ms f)
        × ((consume ms f).connected ≡ false)
  unfolding consume
  consume-Holds ms f open_conn = simp open_conn (
      let held = dispatch_all-Holds ms f in
      (record { prices = held.prices; depths = held.depths; indices = held.indices }, refl))
