-- ===== src/Prober.antt =====
-- interceptor/rtx_prober.go: packets that let the SFU learn which stream repairs which. Durations are
-- in milliseconds; the texts of mid and rid are numbers, and no text is `none`. pion's writer takes
-- what is sent, and whether it fails is an input, as is the clock at each turn of the loop.
pub mod Probes
use getstream_go_webrtc.Base.{
  ℕ, zero, suc, ◌+◌, ◌-◌, ◌/◌, ◌%◌, ◌^◌, Bool, true, false, not, ◌||◌, Option, none, some, List, [],
  ◌∷◌, ◌++◌, ltb, ◌==◌, if◌then◌else◌, take,
}

pub record RtxProberConfig : Type 0 where
  pub batch_size : ℕ
  pub interval : ℕ
  pub duration : ℕ
  pub initial_delay : ℕ

abbrev or_default : ℕ → ℕ → ℕ
or_default value default_value = if value == 0 then default_value else value

abbrev pub default_config : RtxProberConfig
default_config = record { batch_size = 5; interval = 100; duration = 1000; initial_delay = 50 }

-- `NewRTXProberFactoryWithConfig`
abbrev pub with_defaults : RtxProberConfig → RtxProberConfig
with_defaults c = record {
  batch_size = or_default c.batch_size default_config.batch_size;
  interval = or_default c.interval default_config.interval;
  duration = or_default c.duration default_config.duration;
  initial_delay = or_default c.initial_delay default_config.initial_delay;
}

pub data Uri : Type 0 where
  mid_uri : Uri
  rid_uri : Uri
  rsid_uri : Uri
  other_uri : ℕ → Uri

abbrev pub same_uri : Uri → Uri → Bool
same_uri mid_uri mid_uri = true
same_uri rid_uri rid_uri = true
same_uri rsid_uri rsid_uri = true
same_uri (other_uri a) (other_uri b) = a == b
same_uri _ _ = false

-- `getHeaderExtensionID`, of identifiers that are a uint8
unfoldable pub get_header_extension_id : List (Uri × ℕ) → Uri → ℕ
get_header_extension_id [] uri = 0
get_header_extension_id ((u, i) ∷ extensions) uri =
    if same_uri u uri then i % 2 ^ 8 else get_header_extension_id extensions uri

pub record StreamInfo : Type 0 where
  pub ssrc : ℕ
  pub ssrc_retransmission : ℕ
  pub payload_type_retransmission : ℕ
  pub is_video : Bool
  pub extensions : List (Uri × ℕ)

pub record RtxProberStream : Type 0 where
  pub info : StreamInfo
  pub next_seq : ℕ  -- uint16
  pub started : Bool  -- the writer's Once
  pub probed : Bool
  pub mid_ext_id : ℕ
  pub rid_ext_id : ℕ
  pub rsid_ext_id : ℕ

-- `BindLocalStream`: the stream that is probed, if it is; `seq` is the sequencer's random start.
unfoldable pub bind_local_stream : StreamInfo → ℕ → Option RtxProberStream
unfolding get_header_extension_id
bind_local_stream info seq =
    let mid_id = get_header_extension_id info.extensions mid_uri in
    let rsid_id = get_header_extension_id info.extensions rsid_uri in
    if info.ssrc_retransmission == 0 || info.payload_type_retransmission == 0
    then none
    else if not info.is_video
    then none
    else if mid_id == 0 || rsid_id == 0
    then none
    else some record {
      info = info;
      next_seq = seq;
      started = false;
      probed = false;
      mid_ext_id = mid_id;
      rid_ext_id = get_header_extension_id info.extensions rid_uri;
      rsid_ext_id = rsid_id;
    }

pub record Probe : Type 0 where
  pub payload_type : ℕ
  pub seq : ℕ
  pub ssrc : ℕ
  pub extensions : List (ℕ × ℕ)
  pub payload : List ℕ

-- `sendProbePacket`, of a text that pion's SetExtension takes
abbrev pub probe_packet : RtxProberStream → ℕ → ℕ → Probe
probe_packet s mid rid = record {
  payload_type = s.info.payload_type_retransmission;
  seq = s.next_seq;
  ssrc = s.info.ssrc_retransmission;
  extensions = (s.mid_ext_id, mid) ∷ (s.rsid_ext_id, rid) ∷ [];
  payload = 1 ∷ [];
}

abbrev pub advanced : RtxProberStream → RtxProberStream
advanced s = record s { next_seq = (s.next_seq + 1) % 2 ^ 16 }

-- What some packets of the loop did: whether the writer took all, what was sent, and the stream
pub record Sent : Type 0 where
  pub success : Bool
  pub probes : List Probe
  pub stream : RtxProberStream

abbrev pub sent_before : List Probe → Sent → Sent
sent_before probes later = record later { probes = probes ++ later.probes }

-- A batch; `fails` says of a sequence number whether the writer fails for its packet.
unfoldable pub send_batch : (ℕ → Bool) → ℕ → ℕ → ℕ → RtxProberStream → Sent
send_batch fails zero mid rid s = record { success = true; probes = []; stream = s }
send_batch fails (suc n) mid rid s =
    let later = send_batch fails n mid rid (advanced s) in
    if fails s.next_seq
    then record { success = false; probes = probe_packet s mid rid ∷ []; stream = advanced s }
    else sent_before (probe_packet s mid rid ∷ []) later

-- The loop of `probeStream` with the turns that it may take; `clock` is the time since its start that
-- each turn reads, the ticks between them included.
unfoldable pub probe_loop :
    (ℕ → Bool) → (ℕ → ℕ) → RtxProberConfig → ℕ → ℕ → ℕ → ℕ → RtxProberStream → Sent
unfolding send_batch
probe_loop fails clock c zero turn mid rid s = record { success = true; probes = []; stream = s }
probe_loop fails clock c (suc turns) turn mid rid s =
    let batch = send_batch fails c.batch_size mid rid s in
    let later = probe_loop fails clock c turns (turn + 1) mid rid batch.stream in
    if not (ltb (clock turn) c.duration)
    then record { success = true; probes = []; stream = s }
    else if not batch.success
    then batch
    else sent_before batch.probes later

abbrev pub not_probed : RtxProberStream → Sent
not_probed s = record { success = true; probes = []; stream = s }

-- `probeStream` of the texts that the first packet carries
unfoldable pub probe_stream :
    (ℕ → Bool) → (ℕ → ℕ) → RtxProberConfig → ℕ → Option ℕ → Option ℕ → RtxProberStream → Sent
unfolding probe_loop
probe_stream fails clock c turns mid rid s =
    let s' = record s { probed = true } in
    if s.probed then not_probed s else elim mid [
      | none ↦ not_probed s'
      | some m ↦ elim rid [
        | none ↦ not_probed s'
        | some r ↦ probe_loop fails clock c turns 0 m r s'
      ]
    ]

-- `Write`, which probes on the first packet; a text counts when its extension has an identifier.
unfoldable pub write :
    (ℕ → Bool) → (ℕ → ℕ) → RtxProberConfig → ℕ → Option ℕ → Option ℕ → RtxProberStream → Sent
unfolding probe_stream
write fails clock c turns mid rid s =
    if s.started
    then not_probed s
    else probe_stream fails clock c turns (if s.mid_ext_id == 0 then none else mid)
        (if s.rid_ext_id == 0 then none else rid) (record s { started = true })
