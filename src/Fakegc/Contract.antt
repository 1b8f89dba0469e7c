-- ===== src/Fakegc/Contract.antt =====
-- fakegc.c against the interface of theories/Runtime/gc.h.
