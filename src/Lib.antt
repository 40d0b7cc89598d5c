-- ===== src/Lib.antt =====
-- Merge Mining Monitor: the evidence that a child chain's block was merge-mined with Bitcoin, and the
-- rules that say whether a parent header is Bitcoin's.
--
-- A producer hands the bytes of a child block, or of a stored proof, to a parser of
-- crates/mmm-capture/src/auxpow. The parser reads the child header and the proof with the byte
-- reader (reader.rs), checks that the proof commits to the child (verify.rs) by the convention of its
-- chain (classic.rs for classic blocks, qbit.rs for Qbit, mod.rs for Elastos records), and returns a
-- record of the parts. The parent header of the record then gets a lineage: lineage.rs decides from
-- the parent's placed prev, its coinbase height and the table of difficulty epochs (nbits_table.rs),
-- and btc_orphan.rs turns the lineage into a verdict that is stored. Where Bitcoin Core is asked,
-- crates/mmm-bitcoin-core/src/parent_classifier gives the parent its kind from Core's answers,
-- and crates/mmm-read-model/src/classify.rs joins that verdict with the pinned catalogue of invalid
-- blocks (invalid_blocks.rs).
--
-- Capture is driven by producers. A poller (crates/mmm-producers/src/poller) walks the heights of a
-- child chain in ticks, and keeps a cursor; the supervisor (live_loop.rs) runs its ticks, waits
-- between them and backs off while Bitcoin Core is down. The backbone producer keeps Core's own chain
-- in the store: it checks the window below Core's tip (bitcoin_core_backbone/live_window.rs) plans
-- what a reorganisation replaces (reorg.rs), advances a cursor over the proven prefix (sync_state.rs),
-- and is itself a producer that the supervisor runs (live.rs). A Hathor block holds its proof in parts:
-- the header of its parent is put together from them (chains/hathor/auxpow.rs).
--
-- Which file models what:
--   Bitcoin          the structs of the rust-bitcoin crate, and the functions of it that the
--                    program calls, as the fields of `Library`, a parameter everywhere
--   Auxpow           the data types of auxpow/mod.rs and auxpow/reader.rs, and the failures
--   Auxpow.Reader    auxpow/reader.rs; a method takes the reader and returns it moved
--   Auxpow.Verify    auxpow/verify.rs
--   Auxpow.Decode    auxpow/decode.rs
--   Auxpow.Blocks    auxpow/mod.rs, and `read_classic_prefix` of auxpow/classic.rs
--   Auxpow.Classic   auxpow/classic.rs
--   Auxpow.Qbit      auxpow/qbit.rs
--   Nbits            crates/mmm-capture/src/nbits_table.rs
--   Lineage          crates/mmm-capture/src/lineage.rs
--   Orphan           crates/mmm-capture/src/btc_orphan.rs
--   Classifier       crates/mmm-bitcoin-core/src/parent_classifier/core.rs and mod.rs
--   Catalogue        crates/mmm-capture/src/invalid_blocks.rs, and
--                    `resolve_parent_classification` of crates/mmm-read-model/src/classify.rs
--   Live             crates/mmm-producers/src/live_loop.rs, and the codes of
--                    crates/mmm-bitcoin-core/src/availability.rs
--   Poller           crates/mmm-producers/src/poller/mod.rs: the window and the loops of a tick;
--                    Poller.Session has the tick, Poller.Start the start
--   Backbone         crates/mmm-producers/src/bitcoin_core_backbone: live_window.rs, plan_repair of
--                    reorg.rs, and the advance of the cursor of sync_state.rs; Backbone.Repair has
--                    the captured view and the checks of reorg.rs
--   Follow           crates/mmm-producers/src/bitcoin_core_backbone/live.rs; Follow.Tick has the tick
--   Reorg            the rest of reorg.rs: the replacement of a suffix, with the order of
--                    crates/mmm-read-model/src/mutation/core_suffix.rs; Reorg.Rounds has the loop
--   Hathor           crates/mmm-producers/src/chains/hathor/auxpow.rs
--   Base             lists, results, texts and integers that the others share
--   Examples         runs at small inputs, with a concrete `Library`
--
-- Conventions. Bytes are numbers, and a byte string is a list. An i32 or i64 is an integer; where
-- the code adds, subtracts or multiplies i32 values, the wrap-around of 32 bits is written out, as in
-- a release build (a debug build stops there instead). An `anyhow` error is a value of an enum with
-- one constructor for each cause; the texts that `context` adds are left out. Loops are structural
-- recursion over the list that the code walks, so no fuel is needed, except that
-- the repair of a reorganisation takes a number of rounds: it may plan again twice, so that three
-- are enough in a live run; in any other, each repair of the cursor starts it over. A `HashMap` is an
-- association list whose keys are distinct. A `Target` is the number it holds. Bitcoin Core is a
-- record of functions from a request to an answer or a failure; the two answers to the request for
-- the chain's status, which a classification makes before and behind it, are separate arguments.
--
-- Not modelled: the stores and their SQL, the HTTP and RPC clients (bitcoin_rpc.rs among them), the
-- producers of the other chains and of the history, the API, the catalogues of pools and sources, the
-- signals of a shutdown and the heartbeat, and the logging.
pub mod Base
pub mod Bitcoin
pub mod Auxpow
pub mod Nbits
pub mod Lineage
pub mod Orphan
pub mod Classifier
pub mod Catalogue
pub mod Live
pub mod Poller
pub mod Backbone
pub mod Follow
pub mod Hathor
pub mod Reorg
pub mod Examples
