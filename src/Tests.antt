-- ===== src/Tests.antt =====
-- Runs of the models on small inputs, taken from the unit tests of ioriot/src where there are such,
-- and the theorems at inputs that meet their hypotheses.
mod RBuffer
mod BTree
mod Maps
mod Generate
mod Vsize
mod Gioop
mod Text
mod Mounts
mod Parser
mod Replay
mod Threads
mod Meta
mod Init
mod Futils
mod Main
