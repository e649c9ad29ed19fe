-- ===== src/Lib.antt =====
-- Verification of the pipeline-parallel overlay that serves GLM-5.3-Flash on vLLM.
--
-- The overlay replaces files of vLLM. An engine step runs on every pipeline rank: the runner frees
-- and adds requests, the non-last ranks take the sampled tokens that the last rank relayed to them
-- pp_size steps ago, the recurrent layers move their states between blocks, the sparse indexer cuts
-- the prefill into chunks and keeps a compressed key for every pool of tokens, and the last rank
-- samples and relays again. The parts that decide what goes where are modelled here; the arithmetic
-- on tensors is not.
--
-- Files and what they model (paths under ported-files/vllm where not written out):
--   Relay      v1/worker/gpu/pp_utils.py, `PPHandler`, and the order in which
--              v1/worker/gpu/model_runner.py calls it (Relay/Turn). The handler is a record: the queue
--              of pending receives and the generation counter of each slot. Collectives and CUDA
--              events are recorded as commands; what a broadcast delivers is an argument.
--   Runner     v1/worker/gpu/model_runner.py, `sort_batch_req_ids`.
--   Memcpy     v1/worker/mamba_utils.py, `_memcpy_u64_tiled` and `batch_memcpy_kernel`. Memory is a
--              function from addresses to bytes; a launch is the list of its tiles in some order.
--   Mamba      v1/worker/mamba_utils.py, the decisions of the state copies: the postprocess and the
--              align kernels, `preprocess_mamba` with its dictionary of columns (Mamba/Batch,
--              Mamba/Dict) and the block copy (Mamba/Block). Request ids are numbers. Mamba/Hybrid is
--              v1/worker/gpu/model_states/mamba_hybrid.py, `MambaHybridModelState` in align mode, which
--              drives those kernels; a step is a call that the runner makes.
--   Indexer    v1/attention/backends/mla/indexer.py, `split_indexer_prefill_chunks`,
--              and the kernel of `BuildPrefillChunkMetadataKernel` (Indexer/Metadata).
--   Kpool      models/glm5next/nvidia/ops/kpool_compress.py, from selected pools to token ids: the
--              two functions and the kernel that fuses them, with int32 results wrapped; and the
--              slots of the compressed keys (Kpool/Pages).
--   TailRing   models/glm5next/nvidia/ops/kpool_compress.py, the seed and the decode kernel of the tail
--              ring, and the circular slot mapping of v1/attention/backends/mla/indexer.py
--              (TailRing/Slots). The compression of a pool is a parameter.
--   Speculator v1/worker/gpu/spec_decode/autoregressive/speculator.py: the kernels that prepare the
--              draft inputs, and `propose` with its two loops (Speculator/Loop). The draft model, the
--              sampler and the attention metadata are parameters; what is said of the fused loop, where
--              positions advance, is on the condition that an update of the metadata in place gives
--              what a rebuild gives (Speculator/Fused). The debugging check of the slot mappings is
--              left out.
--   Decode     v1/attention/backends/mla/indexer.py, `_prepare_decode_tensors` with its three paths, and
--              model_executor/layers/sparse_attn_indexer_kpool.py, the padded layout of the decode
--              tokens and the lengths of its rows (Decode/Scatter). `none` is an index out of range.
--   Worker     serve/morrowmake/overlay/v1/worker/gpu_worker.py, `Worker`: the weight update sessions
--              (Worker/WeightUpdate; the transfer engine is a parameter) and sleep mode (Worker/Sleep;
--              the tensors stand in a store by identity, the backend that moves memory is a parameter).
--   Detect     tools/detect.py, `find_loop`. A text is the list of its code points; `str.isalnum` is a
--              parameter.
--   Base       Boolean tests, lists, integers and options over the native numbers.
--
-- How the parts meet: the runner's generation counters make a freed slot drop out of the relay
-- (Relay/Freed, Relay/Mask), the postprocess decision is carried out by the block copy, which runs on
-- the tiled copy (Mamba/Shift uses Memcpy/Order), and the slot mapping of TailRing/Slots is the layout
-- that the seed and the decode kernel rely on.
--
-- Values and bounds: the generation counter is an int32 that wraps, and the relay needs fewer than
-- 2 ^ 32 frees of a slot while a receive is pending; other machine integers are taken as unbounded
-- where the source keeps them far below their width. A raised exception is `none`. Loops that count
-- up to a limit run on fuel: the number of units for the tiled copy, of rows for the query slices, of
-- requests for the groups, of queries or keys for the metadata. Each round takes at least one of them,
-- so the fuel is enough. The loops of `find_loop` run on the length of the text, since each round
-- moves on by a character at least. The loop of `sleep` runs on 51 rounds, which its deadline of 5000 ms and its
-- nap of 100 ms make enough (Worker/Sleep/Poll). Launches of kernels are sequences of their programs in any order.
--
-- Not modelled: floating-point kernels (attention, logits, rotation, quantization, FP4 repacking), the
-- neural network modules, the capture and replay of CUDA graphs, device
-- and process management, the other scripts under tools/ and serve/, and the vLLM classes that the
-- repository does not hold.
pub mod Base
pub mod Relay
pub mod Runner
pub mod Memcpy
pub mod Mamba
pub mod Indexer
pub mod Kpool
pub mod TailRing
pub mod Worker
pub mod Speculator
pub mod Decode
pub mod Detect
