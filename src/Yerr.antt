-- ===== src/Yerr.antt =====
-- The error codes of type `yerr_t` that the program's functions return.
pub data Yerr : Type 0 where
  yenoerr yenodata yeaccess yeio yeconnreset yenomem yebadf : Yerr
