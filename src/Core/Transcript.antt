-- ===== src/Core/Transcript.antt =====
-- internal/core/transcript.go: `transcriptPoller`, which reads each target once for all its subscribers
-- and sends each the flavour it asked for. Upstream's reads and the hash are arguments; the bounded pool
-- of workers that runs the polls of a sweep is not modelled, and each poll is a step of its own.
pub mod Settled
use herdr_expose.Prelude.{
  ℕ, zero, suc, ◌+◌, ◌-◌, ◌*◌, ◌/◌, ◌%◌, ◌^◌, ◌≤◌, ◌<◌, ◌≡◌, refl, sym, ap, ap₂, subst, ◌∙◌, ◌≢◌,
  ◌↔◌, ◌⊎◌, inl, inr, Bool, true, false, not, ◌&&◌, ◌||◌, Option, none, some, List, [], ◌∷◌, ◌++◌,
  map, append-nil, append_assoc, arith,
}
use herdr_expose.Prelude.Tests.{
  if_split, ltb, leb, ◌==◌, ==_iff, if◌then◌else◌, Bool-cases, Option-cases, is_some, or_zero,
}
use herdr_expose.Prelude.Lists.{All, In, snoc, is_empty, length, take, drop, any_of, keep_if}
use herdr_expose.Prelude.Text.{Text, bytes, text_eq, text_eq_iff, text_eq_refl}
use herdr_expose.Prelude.Map.{
  Map, keys, lookup, insert, delete, lookup-insert, lookup-delete, lookup-insert_self,
  lookup-delete_self, Unique, insert-Unique, delete-Unique,
}
use herdr_expose.Core.Pollers.{claim, subs_of}
use herdr_expose.Core.Ansi.{strip_ansi}
use mathlib.Core.List.{reverse}

abbrev pub transcript_lines : ℕ
transcript_lines = 200

abbrev pub source_recent : Text
source_recent = bytes "recent_unwrapped"

abbrev pub source_detection : Text
source_detection = bytes "detection"

abbrev pub stable_dwell : ℕ
stable_dwell = 1

pub record TranscriptSub : Type 0 where
  pub hash : ℕ
  pub sent : Bool
  pub level : ℕ
  pub settle : Bool

pub record TranscriptPoller : Type 0 where
  pub subs : Map (Map TranscriptSub)
  pub stable : Map ℕ
  pub last_stable : Map Text

pub record CleanReport : Type 0 where
  pub chrome : ℕ
  pub blank : ℕ
  pub code : ℕ

pub record TranscriptFrame : Type 0 where
  pub target : Text
  pub source : Text
  pub text : Text
  pub lines : ℕ
  pub truncated : Bool
  pub agent : Bool
  pub state : Text
  pub at : ℕ
  pub cleaned : Option CleanReport

abbrev bool_eq : Bool → Bool → Bool
bool_eq true b = b
bool_eq false b = not b

-- What `subscribe` leaves of a subscription: a changed flavour is due at once.
abbrev resubscribed : ℕ → Bool → Option TranscriptSub → TranscriptSub
resubscribed level settle none = record { hash = 0; sent = false; level = level; settle = settle }
resubscribed level settle (some sub) =
    if sub.level == level && bool_eq sub.settle settle
    then sub
    else record sub { settle = settle; level = level; sent = false }

unfoldable pub subscribe_transcript :
    Text → Text → ℕ → Bool → Map (Map TranscriptSub) → Map (Map TranscriptSub)
subscribe_transcript target s level settle p =
    let m = subs_of target p in
    insert target (insert s (resubscribed level settle (lookup s m)) m) p

abbrev pub is_working_status : Text → Bool
is_working_status s = text_eq s (bytes "working") || text_eq s (bytes "running")

abbrev pub is_blocked_status : Text → Bool
is_blocked_status s = text_eq s (bytes "blocked") || text_eq s (bytes "waiting")

-- One value for each flavour: raw, chrome removed, code folded.
pub record Flavours (A : Type 0) : Type 0 where
  pub raw : A
  pub clean : A
  pub prose : A

abbrev pub flavour : {A : Type 0} → ℕ → Flavours A → A
flavour level f = if level == 0 then f.raw else if level == 1 then f.clean else f.prose

-- How many polls in a row the settled text of a target has stood, this one not counted.
abbrev pub dwell : Text → Text → TranscriptPoller → ℕ
dwell target id p =
    if text_eq (elim (lookup target p.last_stable) [ none ↦ [] | some t ↦ t ]) id
    then or_zero (lookup target p.stable) + 1
    else 0

abbrev pub is_held : Bool → Bool → TranscriptSub → Bool
is_held working steady sub = sub.settle && (working || not steady)

-- Whether a subscriber is passed over.
abbrev pub passed : (Text → ℕ) → Flavours Text → Bool → Bool → TranscriptSub → Bool
passed hash ids working steady sub =
    is_held working steady sub || (sub.sent && sub.hash == hash (flavour sub.level ids))

abbrev pub delivered : (Text → ℕ) → Flavours Text → TranscriptSub → TranscriptSub
delivered hash ids sub = record sub { hash = hash (flavour sub.level ids); sent = true }

-- The frames that go out: none that was cleaned to nothing.
unfoldable pub frames_for :
    Flavours TranscriptFrame → Map TranscriptSub → List (Text × TranscriptFrame)
frames_for frames [] = []
frames_for frames ((s, sub) ∷ m) =
    if ltb 0 sub.level && is_empty (flavour sub.level frames).text
    then frames_for frames m
    else (s, flavour sub.level frames) ∷ frames_for frames m

-- Who is picked, and the poller after it.
unfoldable pub pick :
    (Text → ℕ)
    → Text
    → Flavours Text
    → Text
    → TranscriptPoller
    → TranscriptPoller × Map TranscriptSub
pick hash target ids state p =
    let n = dwell target ids.prose p in
    let (m, out) =
      claim (passed hash ids (is_working_status state) (leb stable_dwell n)) (delivered hash ids)
        (subs_of target p.subs) in
    (
      record {
        subs = if is_some (lookup target p.subs) then insert target m p.subs else p.subs;
        stable = insert target n p.stable;
        last_stable = insert target ids.prose p.last_stable;
      },
      out,
    )

unfoldable pub deliver :
    (Text → ℕ)
    → Text
    → Flavours TranscriptFrame
    → Flavours Text
    → Text
    → TranscriptPoller
    → TranscriptPoller × List (Text × TranscriptFrame)
unfolding pick frames_for
deliver hash target frames ids state p =
    let (q, out) = pick hash target ids state p in (q, frames_for frames out)

-- A pane of the tree, as far as a poll looks at it, and what a read answers with.
pub record PaneState : Type 0 where
  pub agent : Text
  pub status : Text

pub record Read : Type 0 where
  pub text : Text
  pub truncated : Bool

pub record CleanResult : Type 0 where
  pub text : Text
  pub report : CleanReport

abbrev trailing : ℕ → Bool
trailing c = c == 10 || (c == 32 || c == 9)

abbrev drop_trailing : Text → Text
drop_trailing [] = []
drop_trailing (x ∷ xs) = if trailing x then drop_trailing xs else x ∷ xs

-- `strings.TrimRight(s, "\n \t")`.
abbrev pub trim_trailing : Text → Text
trim_trailing s = reverse (drop_trailing (reverse s))

abbrev identity : Text → Text → Text → Text
identity source state text = source ++ (0 ∷ (state ++ (0 ∷ text)))

abbrev cleaned_frame : TranscriptFrame → CleanResult → TranscriptFrame
cleaned_frame f r = record f { text = r.text; cleaned = some r.report }

-- The frames of a poll and their identities.
unfoldable pub flavours_of :
    (Text → CleanResult)
    → (Text → CleanResult)
    → TranscriptFrame
    → Flavours TranscriptFrame × Flavours Text
flavours_of clean clean_dropping_code f =
    let c = clean f.text in
    let d = clean_dropping_code f.text in
    (
      record { raw = f; clean = cleaned_frame f c; prose = cleaned_frame f d },
      record {
        raw = identity f.source f.state f.text;
        clean = identity f.source f.state c.text;
        prose = identity f.source f.state d.text;
      },
    )

abbrev pub has_agent : PaneState → Bool
has_agent pane =
    not (is_empty pane.agent)
    || (not (is_empty pane.status) && not (text_eq pane.status (bytes "unknown")))

abbrev first_read : Option Read → Option Read → Option Read
first_read none r = r
first_read (some a) r = some a

-- A poll of a target that resolves; `agent_read` and `pane_read` take the source and the lines.
unfoldable pub poll :
    (Text → ℕ)
    → (Text → CleanResult)
    → (Text → CleanResult)
    → (Text → ℕ → Option Read)
    → (Text → ℕ → Option Read)
    → Option PaneState
    → ℕ
    → Text
    → TranscriptPoller
    → TranscriptPoller × List (Text × TranscriptFrame)
unfolding deliver flavours_of strip_ansi
poll hash clean clean_dropping_code agent_read pane_read pane now target p =
    let state : Text = elim pane [ none ↦ [] | some v ↦ v.status ] in
    let agent : Bool = elim pane [ none ↦ false | some v ↦ has_agent v ] in
    let blocked = is_blocked_status state in
    let source = if blocked then source_detection else source_recent in
    let lines = if blocked then 0 else transcript_lines in
    let answer : Option Read =
      (if agent
        then first_read (agent_read source lines) (pane_read source lines)
        else pane_read source lines) in
    elim answer [
      | none ↦ (p, [])
      | some r ↦
          let (frames, ids) = flavours_of clean clean_dropping_code (record {
            target = target;
            source = source;
            text = trim_trailing (strip_ansi r.text);
            lines = lines;
            truncated = r.truncated;
            agent = agent;
            state = state;
            at = now;
            cleaned = none;
          }) in
          deliver hash target frames ids state p
    ]
