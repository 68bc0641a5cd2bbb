-- ===== src/Types.antt =====
-- backend/include/multi_radio/types.hpp and backend/src/types.cpp: the data that the components
-- exchange, and the names of the enumerations.
pub mod Data
pub mod Double
pub mod Names
