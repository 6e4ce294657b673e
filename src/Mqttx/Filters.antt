-- ===== src/Mqttx/Filters.antt =====
-- What it means for a filter to match a topic, and that match_filter decides it; the topics of the
-- devices against the filter of the bridge.
use text.Mathlib.TextLemmas.{append_assoc, append-eq-nil_iff}
use yunmao.Base.{
  String, append, ◌≡◌, ◌≢◌, ◌↔◌, refl, sym, ap, ◌∙◌, true, false, arith, List, [], ◌∷◌, ◌==◌,
  eq_iff, ==_of_ne, Bool-cases, inl, inr,
}
use yunmao.Mqttx.{match_filter, split_topic, device_event_topic, device_command_topic, split_from}
use yunmao.Mqttx.Topics.{NoSlash, AllNoSlash, join, split_topic-join}

-- A segment `+` takes one segment of the topic, any other segment itself, and `#` the rest of the
-- topic, also an empty one.
pub data Covers : List String → List String → Type 0 where
  ends : Covers [] []
  rest : {f : String} {fs ps : List String} → f ≡ "#" → Covers (f ∷ fs) ps
  one : {f p : String} {fs ps : List String} → f ≡ "+" → Covers fs ps → Covers (f ∷ fs) (p ∷ ps)
  same : {f p : String} {fs ps : List String} → f ≡ p → Covers fs ps → Covers (f ∷ fs) (p ∷ ps)

Covers→match : {fs : List String} (ps : List String) → Covers fs ps → match_filter fs ps ≡ true
unfolding match_filter
Covers→match ps ends = refl
Covers→match [] (rest {f} e) = (eq_iff f "#").1 e
Covers→match (p ∷ ps) (rest {f} e) = rw ((eq_iff f "#").1 e) refl
Covers→match (p ∷ ps) (one {f} e c) = ground (arith, eq_iff f "+", Covers→match ps c)
Covers→match (p ∷ ps) (same {f} e c) = ground (arith, eq_iff f p, Covers→match ps c)

match→Covers : (fs ps : List String) → match_filter fs ps ≡ true → Covers fs ps
unfolding match_filter
match→Covers [] [] h = ends
match→Covers [] (p ∷ ps) h = cc
match→Covers (f ∷ fs) [] h = rest ((eq_iff f "#").0 h)
match→Covers (f ∷ fs) (p ∷ ps) h = elim (Bool-cases (f == "#")) [
  | inl e ↦ rest ((eq_iff f "#").0 e)
  | inr n ↦ elim (Bool-cases (f == "+")) [
    | inl e ↦ one ((eq_iff f "+").0 e) (match→Covers fs ps (ground arith))
    | inr m ↦ elim (Bool-cases (f == p)) [
      | inl e ↦ same ((eq_iff f p).0 e) (match→Covers fs ps (ground arith))
      | inr k ↦ absurd (ground arith)
    ]
  ]
]

-- A filter matches a topic exactly if its segments cover the segments of the topic.
pub match_filter_iff : (fs ps : List String) → (match_filter fs ps ≡ true) ↔ Covers fs ps
match_filter_iff fs ps = (match→Covers fs ps, Covers→match ps)

abbrev middle : String → String
middle kind = append "/" (append kind "/")

device_topic_join :
    (device kind last : String)
    → join ("device" ∷ device ∷ kind ∷ last ∷ [])
      ≡ append "device/" (append device (append (middle kind) last))
device_topic_join device kind last =
    let inner : append "/" (append kind (append "/" last)) ≡ append (middle kind) last =
      ap (append "/") (sym (append_assoc kind "/" last))
      ∙ sym (append_assoc "/" (append kind "/") last) in
    sym (append_assoc "device" "/" _) ∙ ap (λ t. append "device/" (append device t)) inner

device_topic_full : (t : String) → append "device/" t ≢ ""
device_topic_full t e = cc ((eq_iff "device/" "").1 (append-eq-nil_iff.0 e).0)

device_topic :
    (device kind last : String)
    → AllNoSlash (device ∷ kind ∷ last ∷ [])
    → split_topic (append "device/" (append device (append (middle kind) last)))
      ≡ "device" ∷ device ∷ kind ∷ last ∷ []
device_topic device kind last h =
    let path = device_topic_join device kind last in
    let full : join ("device" ∷ device ∷ kind ∷ last ∷ []) ≢ "" =
      λ e. device_topic_full _ (sym path ∙ e) in
    ap split_topic (sym path)
    ∙ (split_topic-join "" "device" (device ∷ kind ∷ last ∷ []) (omega arith, h) full).2

-- The segments of the topics of a device.
pub split_topic-device_event_topic :
    (device event : String)
    → NoSlash device
    → NoSlash event
    → split_topic (device_event_topic device event) ≡ "device" ∷ device ∷ "event" ∷ event ∷ []
unfolding device_event_topic
split_topic-device_event_topic device event d e =
    device_topic device "event" event (d, (omega arith, (e, tt)))

-- The topic of an event is not empty, so it is split segment by segment.
pub split_from-device_event_topic :
    (device event : String)
    → NoSlash device
    → NoSlash event
    → split_from "" (device_event_topic device event) ≡ "device" ∷ device ∷ "event" ∷ event ∷ []
unfolding device_event_topic split_topic
split_from-device_event_topic device event d e =
    let full = ==_of_ne (device_event_topic device event) "" (device_topic_full _) in
    let parts = split_topic-device_event_topic device event d e in ground arith

pub split_topic-device_command_topic :
    (device cmd : String)
    → NoSlash device
    → NoSlash cmd
    → split_topic (device_command_topic device cmd) ≡ "device" ∷ device ∷ "cmd" ∷ cmd ∷ []
unfolding device_command_topic
split_topic-device_command_topic device cmd d c =
    device_topic device "cmd" cmd (d, (omega arith, (c, tt)))

-- The filter `device/+/event/+` matches the event topics of every device and no command topic, for
-- devices, events and commands without a slash in their names.
pub match_filter-device_topics :
    (device event cmd : String)
    → AllNoSlash (device ∷ event ∷ cmd ∷ [])
    → let filter = split_topic "device/+/event/+" in
      (match_filter filter (split_topic (device_event_topic device event)) ≡ true)
      × (match_filter filter (split_topic (device_command_topic device cmd)) ≡ false)
unfolding match_filter split_topic
match_filter-device_topics device event cmd (d, (e, (c, _))) = (
  rw (split_topic-device_event_topic device event d e) refl,
  rw (split_topic-device_command_topic device cmd d c) refl,
)
