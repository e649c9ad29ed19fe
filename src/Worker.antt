-- ===== src/Worker.antt =====
-- The worker process of one GPU, serve/morrowmake/overlay/v1/worker/gpu_worker.py: the sessions
-- that update the weights of the running model, and sleep mode.
pub mod WeightUpdate
pub mod Dict
pub mod Sleep
