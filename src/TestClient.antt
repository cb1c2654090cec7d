-- ===== src/TestClient.antt =====
-- client/include/TestClient.h and client/src/TestClient.cpp: the input file, the division of the
-- requests among the threads, and the results file.
pub mod Input
pub mod Chunks
pub mod Results
pub mod Running
