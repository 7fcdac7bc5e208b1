-- ===== src/Lib.antt =====
-- A model of the Go WebRTC client of Stream Video (getstream-go-webrtc) and proofs about it.
--
-- A call of the client talks to an SFU over a signal connection and two peer connections, one to
-- publish and one to subscribe. The parts modelled here are those that decide by themselves what
-- happens: how audio survives lost packets (RED), how lost packets are sent again (NACK), how a
-- peer connection negotiates and is repaired, how a call that lost its SFU is reconnected and
-- how often, who is in the call, the telephony codec, the audio buffers with their files and
-- streams, how samples are put on a track and taken off one, and how the connection to the SFU
-- is kept. A request that fails over HTTP is sent again by rules of its own. They meet as in the
-- code: the health monitor asks the rate limiter, the negotiation gives its failures to the
-- call, and ICE recovery either restarts ICE or escalates to the monitor. A track reader hands
-- its packets to the RED decoder, and a track writer cuts its audio with the chunks of the audio
-- package.
--
-- - Base: shared names, Boolean tests, lists over the native numbers, signed integers (Base.Int)
--   and error results (Base.Result). It models no code.
-- - Red: internal/red. Red.Packet and Red.Block are the packets and red.go (parse, Primary),
--   Red.Encoder is encoder.go, Red.Decoder is decoder.go, Red.Packetizer is packetizer.go.
--   Red.Wire and Red.Sound are about the RFC 2198 layout, Red.Window about markSeen, Red.Size
--   about the size limit, Red.Recovery, Red.Recovery.Repeated and Red.Recovery.Loss about what a
--   decoder gets back.
-- - Nack: internal/nack. Nack.Buffer is rtpBuffer, Nack.Resend is resendPackets, Nack.Rtx is
--   NewPacket; Nack.Index, Nack.Slots and Nack.Lookup are the proofs about the buffer.
-- - RateLimit: internal/ratelimit, with RateLimit.Period, RateLimit.Window and RateLimit.Budget.
-- - Pc: pc. Pc.NegotiationId is negotiation_id.go; Pc.Transport, Pc.Candidates, Pc.Offer,
--   Pc.Answer and Pc.Queue are pc.go, one function for each method of Transport that runs on its
--   event loop or posts to it. Pc.Settled, Pc.Outstanding, Pc.Renegotiation, Pc.Generation and
--   Pc.Debounce are the proofs.
-- - Reconnect: reconnect.go and the health monitor of call.go. Reconnect.Config and
--   Reconnect.Strategy are the configuration and the choice of a strategy, Reconnect.Monitor the
--   loop, Reconnect.Outage, Reconnect.Endurance and Reconnect.Rejoin the proofs.
-- - Ice: ice_recovery.go, with Ice.Budget.
-- - Audio: the package audio. Audio.G711 is g711.go, with Audio.Companding and Audio.Error.
--   Audio.Format and Audio.Pcm are format.go and pcm.go, Audio.Words the little-endian words in
--   them; Audio.Chunk is chunk.go, Audio.Stream is stream.go, Audio.Wav and Audio.Wav.Decode are
--   wav.go. Audio.Pcm.Encoding, Audio.Chunk.Cover, Audio.Chunk.Size, Audio.Chunk.Loop,
--   Audio.Stream.Padding, Audio.Stream.Conserve, Audio.Wav.Walk and Audio.Wav.Roundtrip are the
--   proofs.
-- - Audio.Rtc: audio/rtc. Audio.Rtc.Reader is reader.go with Audio.Rtc.Reader.Frames,
--   Audio.Rtc.Reader.Gaps and Audio.Rtc.Reader.Continuous, Audio.Rtc.Writer is writer.go with
--   Audio.Rtc.Writer.Levels and Audio.Rtc.Writer.Queue.
-- - Track: track/local.go. Track.Clock is sampleClock with Track.Placing and Track.Wanted,
--   Track.Write what is written and what RTCP changes, with Track.Stamping and Track.Timeline,
--   Track.Pump is runPump with Track.Pump.Burst, Track.Local the life of a track with
--   Track.Local.Reading and Track.Local.Overtaken.
-- - Signal: signal/client.go. Signal.Connect is Connect with Signal.Connect.Sockets,
--   Signal.Events is handle, Signal.Health is pingHandler and readLoop with
--   Signal.Health.Silence.
-- - Retry: internal/rtretry, with Retry.Attempts, Retry.Answers and Retry.Wait.
-- - Event: event/store.go and event/awaiter.go, with Event.Delivery.
-- - Call: call.go's joins. Call.FirstJoin is retryFirstJoin and isJoinErrorRetryable,
--   Call.Migration is reconnect with the peers that it opens and closes, Call.Subscriptions is
--   SubscribeToTracks, Call.Quality is publish_quality.go; Call.FirstJoin.Backoff,
--   Call.FirstJoin.Settles, Call.Migration.Handover, Call.Subscriptions.InStep and
--   Call.Quality.Wishes are the proofs.
-- - Stats: rtcstats. Stats.Delta is DeltaCompressionRtcStats with Stats.Delta.Restore and
--   Stats.Delta.Reports, Stats.Trace is TraceBuffer with Stats.Trace.Kept.
-- - Sdp: internal/sdputil, with Sdp.Agree.
-- - Prober: interceptor/rtx_prober.go, with Prober.Probes.
-- - Participants: participant_store.go and the handlers of call.go that use it, with
--   Participants.Leaving.
--
-- State is passed explicitly: an operation takes the record of its component and returns the new
-- one, with its result. What a mutex makes atomic is one step; where the code gives the lock up
-- between two critical sections, these are two steps. Bytes, sequence numbers and other unsigned
-- integers are natural numbers with their wrap-around written out, signed integers are
-- Base.Int's. Clocks, network answers and the outcome of an attempt are inputs.
--
-- Loops over lists are structural recursion. The one loop that counts, the clearing of skipped
-- slots in Nack.Buffer.add, is given the number of its rounds, the distance of the two sequence
-- numbers less one, which is how often the loop of the code runs. Two loops of the audio package
-- run on fuel: Chunks has as many rounds as the buffer has frames, since each goes on by one
-- frame or more, and the walk over the chunks of a WAV file as many as the input has bytes,
-- since each takes eight or more; the error out_of_rounds, which the code does not have, tells a
-- walk that stopped early from one that ended. Sending a request again and retrying the first
-- join are recursion on the attempts that are left. The loop of the RTX prober runs against the
-- clock and is given any number of turns; the bound on what it sends holds for all of them.
-- Nothing else needs fuel.
--
-- pion (the peer connection, the RTP types, SDP parsing), the Handler of a transport and the
-- skipset are not part of the repository. They are the record Pc.Transport.Peer, whose fields
-- are what they answer during one event, the record Participants.Index with the laws that a set
-- by key has, and the record Track.Write.Pion of a packetizer and its packets, with the laws
-- Track.Stamping.Keeps. The opus codec is the records Audio.Rtc.Reader.Opus and
-- Audio.Rtc.Writer.Opus, with the law Audio.Rtc.Reader.Gaps.Decodes that it takes every frame.
-- The protobuf enum of reconnect strategies is the data type Reconnect.Strategy.Strategy, in the
-- order of its numbers.
--
-- Not modelled: network input and output, logging, tracing, generated code, what is inside the
-- opus codec, and the resampler and the measures of loudness, which compute with floating point;
-- a float32 is its 32 bits, and the conversions of samples are parameters. The fields of a join
-- request and what a call does on most events are left for later.
pub mod Base
pub mod Red
pub mod Nack
pub mod RateLimit
pub mod Pc
pub mod Reconnect
pub mod Ice
pub mod Audio
pub mod Participants
pub mod Event
pub mod Retry
pub mod Call
pub mod Stats
pub mod Sdp
pub mod Prober
pub mod Track
pub mod Signal
