-- ===== src/Recorder/Archive.antt =====
-- src/analysts/recorder: what the archive holds, and what the replay engine reads of it.
use mathlib.Core.Path.{subst}
use mathlib.Core.List.{append_assoc, append-nil}
use navier_stocks.Base.{
  ◌≡◌, refl, sym, ap, ◌∙◌, inl, inr, false, Option, none, some, List, [], ◌∷◌, ◌++◌, String,
  if◌then◌else◌, Bool-cases, map,
}
use navier_stocks.Base.Scan.{
  Bytes, newline, drop_cr, scan_from, scan_lines, whole_lines, torn_tail, has_newline,
  scan_from_line, scan_from-append,
}
use navier_stocks.Base.Text.{str_eq, str_eq_iff}
use navier_stocks.Base.Dict.{Dict, lookup_or}
use navier_stocks.Base.Try.{Try, ok, err}
use navier_stocks.Models.{PriceTick}
use navier_stocks.Replay.{load_ticks, sort_ticks, decoded, ticks}
use navier_stocks.Recorder.{
  File, TickStore, bytes_of, open_tick_store, rotate, is_stale, handle_price, Message, record_all,
  append, after_marshal,
}
use navier_stocks.Recorder.Turns.{no_faults, IsReady, turn, HasWritten, write-HasWritten}

abbrev pub line_of : Try Bytes → Bytes
line_of (ok line) = line
line_of (err message) = []

module _ {F : Type 0} where
  abbrev pub message : String × Option (PriceTick F) → Message F
  message (day, tick) = record { faults = no_faults; day = day; tick = tick }

  unfoldable pub session : List (String × Option (PriceTick F)) → List (Message F)
  session [] = []
  session (m ∷ ms) = message m ∷ session ms

  -- The ticks of the messages of a day.
  abbrev pub ticks_on : String → List (String × Option (PriceTick F)) → List (PriceTick F)
  ticks_on day [] = []
  ticks_on day ((d, none) ∷ ms) = ticks_on day ms
  ticks_on day ((d, some tick) ∷ ms) =
      let rest = ticks_on day ms in if str_eq d day then tick ∷ rest else rest

  decoded_cons :
      (l : Option (PriceTick F)) (ls : List (Option (PriceTick F)))
      → decoded (l ∷ ls) ≡ decoded (l ∷ []) ++ decoded ls
  decoded_cons none ls = refl
  decoded_cons (some t) ls = refl

  decoded_map_append :
      (decode : Bytes → Option (PriceTick F)) (ls more : List Bytes)
      → decoded (map decode (map drop_cr (ls ++ more)))
        ≡ decoded (map decode (map drop_cr ls)) ++ decoded (map decode (map drop_cr more))
  decoded_map_append decode [] more = refl
  decoded_map_append decode (l ∷ ls) more =
      decoded_cons (decode (drop_cr l)) (map decode (map drop_cr (ls ++ more)))
      ∙ ap (λ ts. decoded (decode (drop_cr l) ∷ []) ++ ts) (decoded_map_append decode ls more)
      ∙ sym (append_assoc (decoded (decode (drop_cr l) ∷ [])) _ _)
      ∙ ap (λ ts. ts ++ decoded (map decode (map drop_cr more)))
          (sym (decoded_cons (decode (drop_cr l)) (map decode (map drop_cr ls))))

module _ {F : Type 0} (marshal : PriceTick F → Try Bytes)
    (decode : Bytes → Option (PriceTick F)) where
  -- encoding/json writes a tick as one line, no end of which is a carriage return, and reads it back.
  pub record IsStored (tick : PriceTick F) : Type 0 where
    pub line : Bytes
    pub encoded : marshal tick ≡ ok line
    pub one_line : has_newline line ≡ false
    pub bare : drop_cr line ≡ line
    pub decodes : decode line ≡ some tick

  abbrev pub AllStored : List (String × Option (PriceTick F)) → Type 0
  AllStored [] = Unit {0}
  AllStored ((d, none) ∷ ms) = AllStored ms
  AllStored ((d, some tick) ∷ ms) = IsStored tick × AllStored ms

  -- What is read of a line that a file ends in without a newline, and of the ticks that follow: the
  -- first of them stands on that line.
  abbrev pub behind : Bytes → List (PriceTick F) → List (PriceTick F)
  behind [] ts = ts
  behind (c ∷ cs) [] = decoded (decode (drop_cr (c ∷ cs)) ∷ [])
  behind (c ∷ cs) (t ∷ ts) = decoded (decode (drop_cr (c ∷ (cs ++ line_of (marshal t)))) ∷ []) ++ ts

  -- The bytes that the messages of a day write.
  abbrev text_on : String → List (String × Option (PriceTick F)) → Bytes
  text_on day [] = []
  text_on day ((d, none) ∷ ms) = text_on day ms
  text_on day ((d, some tick) ∷ ms) =
      let rest = text_on day ms in
      if str_eq d day then line_of (marshal tick) ++ newline ∷ rest else rest

  handle_price-HasWritten :
      (day : String) (tick : PriceTick F) (s : TickStore)
      → IsStored tick
      → IsReady s s.file
      → HasWritten day
          (line_of (marshal tick) ++ newline ∷ [])
          s
          (handle_price marshal no_faults day (some tick) s)
  unfolding handle_price append
  handle_price-HasWritten day tick s v ready =
      subst
        (λ (encoded : Try Bytes).
          HasWritten day (line_of encoded ++ newline ∷ []) s
            (after_marshal encoded no_faults day s).1)
        (sym v.encoded)
        (write-HasWritten day (v.line ++ newline ∷ []) s
          (if is_stale day s.file s.day then rotate no_faults day s else (none, s))
          (turn day s.file s refl ready))

  bytes_of-record_all :
      (ms : List (String × Option (PriceTick F))) (s : TickStore) (j : String)
      → AllStored ms
      → IsReady s s.file
      → bytes_of j (record_all marshal (session ms) s) ≡ bytes_of j s ++ text_on j ms
  unfolding record_all session
  bytes_of-record_all [] s j v ready = sym (append-nil (bytes_of j s))
  bytes_of-record_all ((day, none) ∷ ms) s j v ready = bytes_of-record_all ms s j v ready
  bytes_of-record_all ((day, some tick) ∷ ms) s j v ready =
      let line = line_of (marshal tick) in
      let s' = handle_price marshal no_faults day (some tick) s in
      let w = handle_price-HasWritten day tick s v.0 ready in
      bytes_of-record_all ms s' j v.1
        (subst (λ (file : Option File). IsReady s' file) (sym w.opened) (refl, sym w.current))
      ∙ ap (λ text. text ++ text_on j ms) (w.added j)
      ∙ (elim (Bool-cases (str_eq day j)) [
        | inl same ↦ simp same (
            append_assoc (bytes_of day s) (line ++ newline ∷ []) (text_on j ms)
            ∙ ap (λ text. bytes_of day s ++ text) (append_assoc line (newline ∷ []) (text_on j ms))
            ∙ ap (λ name. bytes_of name s ++ (line ++ newline ∷ text_on j ms))
                ((str_eq_iff day j).0 same))
        | inr other ↦ simp other refl
      ])

  abbrev readings : List Bytes → List (PriceTick F)
  readings ls = decoded (map decode (map drop_cr ls))

  readings-stored :
      (tick : PriceTick F) (ls : List Bytes)
      → IsStored tick
      → readings (line_of (marshal tick) ∷ ls) ≡ tick ∷ readings ls
  readings-stored tick ls v = rw (v.encoded, v.bare, v.decodes) refl

  scan-stored :
      (tick : PriceTick F) (more tail : Bytes)
      → IsStored tick
      → scan_from tail (line_of (marshal tick) ++ newline ∷ more)
        ≡ (tail ++ line_of (marshal tick)) ∷ scan_from [] more
  scan-stored tick more tail v = rw v.encoded (scan_from_line v.line more tail v.one_line)

  readings-text_on :
      (day : String) (ms : List (String × Option (PriceTick F)))
      → AllStored ms
      → readings (scan_from [] (text_on day ms)) ≡ ticks_on day ms
  unfolding scan_from
  readings-text_on day [] v = refl
  readings-text_on day ((d, none) ∷ ms) v = readings-text_on day ms v
  readings-text_on day ((d, some tick) ∷ ms) v = elim (Bool-cases (str_eq d day)) [
    | inl same ↦ simp same (
        ap readings (scan-stored tick (text_on day ms) [] v.0)
        ∙ readings-stored tick (scan_from [] (text_on day ms)) v.0
        ∙ ap (λ ts. tick ∷ ts) (readings-text_on day ms v.1))
    | inr other ↦ simp other (readings-text_on day ms v.1)
  ]

  readings-behind :
      (day : String) (tail : Bytes) (ms : List (String × Option (PriceTick F)))
      → AllStored ms
      → readings (scan_from tail (text_on day ms)) ≡ behind tail (ticks_on day ms)
  unfolding scan_from
  readings-behind day [] ms v = readings-text_on day ms v
  readings-behind day (c ∷ cs) [] v = refl
  readings-behind day (c ∷ cs) ((d, none) ∷ ms) v = readings-behind day (c ∷ cs) ms v
  readings-behind day (c ∷ cs) ((d, some tick) ∷ ms) v = elim (Bool-cases (str_eq d day)) [
    | inl same ↦ simp same (
        ap readings (scan-stored tick (text_on day ms) (c ∷ cs) v.0)
        ∙ decoded_cons (decode (drop_cr (c ∷ (cs ++ line_of (marshal tick)))))
            (map decode (map drop_cr (scan_from [] (text_on day ms))))
        ∙ ap (λ ts. decoded (decode (drop_cr (c ∷ (cs ++ line_of (marshal tick)))) ∷ []) ++ ts)
            (readings-text_on day ms v.1))
    | inr other ↦ simp other (readings-behind day (c ∷ cs) ms v.1)
  ]

  -- Let no file operation and no reading of a line fail, and let encoding/json write the tick of each
  -- message as one line, not ended by a carriage return, that it reads back. The replay engine then loads, sorted, from the file of a day of a new recorder: the
  -- ticks of the lines that the file had, each ended by a newline, and then those of the messages that
  -- came on that day, in their order; a line and a message that do not decode are left out. If the file
  -- ended in a line without a newline, the first new tick stands on that line, and what is read of the
  -- two is what the joined line decodes to.
  pub record_all-load_ticks :
      (files : Dict Bytes) (ms : List (String × Option (PriceTick F))) (day : String)
      → AllStored ms
      → let text = lookup_or day files [] in
        load_ticks decode none none
          (bytes_of day (record_all marshal (session ms) (open_tick_store files)))
        ≡ ticks (
            sort_ticks (
              decoded (map decode (map drop_cr (whole_lines text)))
              ++ behind (torn_tail text) (ticks_on day ms)))
  unfolding load_ticks open_tick_store
  record_all-load_ticks files ms day v =
      let text = lookup_or day files [] in
      ap (λ ts. ticks (sort_ticks ts))
        (ap (λ written. decoded (map decode (scan_lines written)))
            (bytes_of-record_all ms (open_tick_store files) day v tt)
          ∙ ap readings (scan_from-append text (text_on day ms) [])
          ∙ decoded_map_append decode (whole_lines text)
              (scan_from (torn_tail text) (text_on day ms))
          ∙ ap (λ ts. readings (whole_lines text) ++ ts)
              (readings-behind day (torn_tail text) ms v))
