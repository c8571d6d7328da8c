-- ===== src/Layer4/Children.antt =====
-- The TCP children and the events that the port tests of Source/Layer4Transport.c make.
