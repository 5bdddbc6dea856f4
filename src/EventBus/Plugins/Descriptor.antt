-- ===== src/EventBus/Plugins/Descriptor.antt =====
-- A descriptor file, written and read back.
use claw.Base.{
  ℕ, ◌≤◌, ◌≡◌, refl, sym, ap, ◌∙◌, false, true, some, List, [], ◌∷◌, ◌++◌, ◌==◌, string_eq, nat_eq,
  All, All-append, append-nil, decimal, arith,
}
use claw.Base.Int.{pos}
use claw.Base.Bytes.{Bytes, codes, text_of-codes, bytes_eq}
use claw.Base.Find.{pieces, Without, with_lines, pieces-with_lines}
use claw.Base.Text.Decimal.{is_digit, AllDigits-decimal, digits-Without}
use claw.Scheduler.Parse.{int_max}
use claw.Scheduler.Files.Rows.{stoi-decimal}
use claw.EventBus.Defs.{EventSourceDescriptor}
use claw.EventBus.Plugins.{
  marker, collect_front, strip_back, stripped, read_yaml, named_only, blank, read_members,
  read_descriptor,
}

-- A text on one line, with no space at either end.
pub record IsValue (value : Bytes) : Type 0 where
  pub one_line : Without 0x0a value
  pub bare : stripped value ≡ value

collect_front-ahead :
    (preamble lines : List Bytes)
    → All (λ line. (line == marker) ≡ false) preamble
    → collect_front false (preamble ++ (marker ∷ lines)) ≡ collect_front true lines
collect_front-ahead [] lines h = refl
collect_front-ahead (line ∷ preamble) lines h =
    ap (λ b. collect_front b (preamble ++ (marker ∷ lines))) h.0
    ∙ collect_front-ahead preamble lines h.1

strip_back-digits : (d : Bytes) → All (λ c. is_digit c ≡ true) d → strip_back d ≡ d
strip_back-digits [] h = refl
strip_back-digits (c ∷ []) h = ground (arith, h.0)
strip_back-digits (c ∷ e ∷ d) h = rw (strip_back-digits (e ∷ d) h.1) refl

stripped-digits : (d : Bytes) → All (λ c. is_digit c ≡ true) d → stripped d ≡ d
stripped-digits [] h = refl
stripped-digits (c ∷ d) h =
    let solid : (c == 0x20) ≡ false = ground (arith, h.0) in rw solid (strip_back-digits (c ∷ d) h)

module _ {J : Type 0} where
  pub record IsWritable (desc : EventSourceDescriptor J) : Type 0 where
    pub has_name : (desc.name == "") ≡ false
    pub name : IsValue (codes desc.name)
    pub type : IsValue (codes desc.type)
    pub version : IsValue (codes desc.version)
    pub collect_method : IsValue (codes desc.collect_method)
    pub interval : ℕ
    pub interval-le : interval ≤ int_max
    pub poll_interval_sec : desc.poll_interval_sec ≡ pos interval
    pub events : desc.events ≡ []

  abbrev pub members : EventSourceDescriptor J → ℕ → List Bytes
  members desc interval =
      (codes "name: " ++ codes desc.name)
      ∷ (codes "type: " ++ codes desc.type)
      ∷ (codes "version: " ++ codes desc.version)
      ∷ (codes "collect_method: " ++ codes desc.collect_method)
      ∷ (codes "poll_interval_sec: " ++ codes (decimal interval))
      ∷ []

  -- The file: any lines, the front matter, and any text.
  abbrev pub render : List Bytes → EventSourceDescriptor J → ℕ → Bytes → Bytes
  render preamble desc interval body = with_lines preamble (
      with_lines (marker ∷ []) (with_lines (members desc interval) (with_lines (marker ∷ []) body)))

  collect_front-members :
      (desc : EventSourceDescriptor J) (interval : ℕ) (lines : List Bytes)
      → collect_front true (members desc interval ++ (marker ∷ lines))
        ≡ with_lines (members desc interval) []
  collect_front-members desc interval lines = refl

  read_members_lem :
      (desc : EventSourceDescriptor J) (w : IsWritable desc)
      → read_members (members desc w.interval) (blank desc.plugin_id) ≡ desc
  unfolding read_members
  read_members_lem desc w =
      let digits = stripped-digits (codes (decimal w.interval)) (AllDigits-decimal w.interval) in
      rw (w.name.bare, w.type.bare, w.version.bare, w.collect_method.bare, digits)
        (rw
          (
            stoi-decimal w.interval w.interval-le,
            text_of-codes desc.name,
            text_of-codes desc.type,
            text_of-codes desc.version,
            text_of-codes desc.collect_method,
          )
          (λ i. record {
            name = desc.name;
            plugin_id = desc.plugin_id;
            type = desc.type;
            version = desc.version;
            collect_method = desc.collect_method;
            poll_interval_sec = sym w.poll_interval_sec i;
            events = sym w.events i;
          }))

  members-Without :
      (desc : EventSourceDescriptor J) (w : IsWritable desc)
      → All (Without 0x0a) (members desc w.interval)
  members-Without desc w =
      let pair = λ (key value : Bytes) (h : Without 0x0a key) (v : Without 0x0a value).
        All-append (λ c. (c == 0x0a) ≡ false) key value h v in
      (
        pair (codes "name: ") (codes desc.name) (ground arith) w.name.one_line,
        (
          pair (codes "type: ") (codes desc.type) (ground arith) w.type.one_line,
          (
            pair (codes "version: ") (codes desc.version) (ground arith) w.version.one_line,
            (
              pair (codes "collect_method: ") (codes desc.collect_method) (ground arith)
                  w.collect_method.one_line,
              (
                pair (codes "poll_interval_sec: ") (codes (decimal w.interval)) (ground arith)
                    (digits-Without (codes (decimal w.interval)) (AllDigits-decimal w.interval)),
                tt,
              ),
            ),
          ),
        ),
      )

  pub read_descriptor-render :
      (preamble : List Bytes) (desc : EventSourceDescriptor J) (body : Bytes) (w : IsWritable desc)
      → All (λ line. (line == marker) ≡ false) preamble
      → All (Without 0x0a) preamble
      → read_descriptor desc.plugin_id (render preamble desc w.interval body) ≡ some desc
  unfolding read_descriptor
  read_descriptor-render preamble desc body w h hn =
      let inner = with_lines (members desc w.interval) (with_lines (marker ∷ []) body) in
      let lines = pieces 0x0a body in
      let front =
        pieces-with_lines (members desc w.interval) (with_lines (marker ∷ []) body)
          (members-Without desc w) in
      let yaml : collect_front false (pieces 0x0a (render preamble desc w.interval body))
          ≡ with_lines (members desc w.interval) [] =
        ap (collect_front false) (pieces-with_lines preamble (with_lines (marker ∷ []) inner) hn)
        ∙ collect_front-ahead preamble (pieces 0x0a inner) h
        ∙ ap (collect_front true) front
        ∙ collect_front-members desc w.interval lines in
      let read = pieces-with_lines (members desc w.interval) [] (members-Without desc w) in
      ap (read_yaml desc.plugin_id) yaml
      ∙ ap (λ ls. named_only (read_members ls (blank desc.plugin_id))) (read ∙ append-nil _)
      ∙ ap named_only (read_members_lem desc w)
      ∙ rw w.has_name refl
