-- ===== src/Driver/Waking/Starvation.antt =====
-- Requests that wait in the queue of PicoDB/pico/pico_client.h while later ones are sent.
